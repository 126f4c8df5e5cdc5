-- ===== src/Client/Sent.antt =====
-- What the channel to the publisher's thread holds after any commands.
use pg_ck.Prelude.{
  ◌+◌, ◌≤◌, ◌≡◌, ◌∙◌, refl, sym, List, [], ◌∷◌, ◌++◌, length, length-append, append_assoc,
  append-nil, arith,
}
use pg_ck.Prelude.Result.{ok}
use pg_ck.Text.{Text}
use pg_ck.Client.{Client, Cmd, IsRunning, pushed, send}

abbrev pub pushed_all : List Cmd → Client → Client
pushed_all [] c = c
pushed_all (cmd ∷ cmds) c = pushed_all cmds (pushed cmd c)

pub send-ok :
    (why : Text) (cmd : Cmd) (c : Client) → IsRunning c → send why cmd c ≡ ok (pushed cmd c)
send-ok why cmd c h = rw (h.initialised, h.receiving) refl

pub pushed-IsRunning : (cmd : Cmd) (c : Client) → IsRunning c → IsRunning (pushed cmd c)
pushed-IsRunning cmd c h = record { initialised = h.initialised; receiving = h.receiving }

pub pushed_all-IsRunning :
    (cmds : List Cmd) (c : Client) → IsRunning c → IsRunning (pushed_all cmds c)
pushed_all-IsRunning [] c h = h
pushed_all-IsRunning (cmd ∷ cmds) c h =
    pushed_all-IsRunning cmds (pushed cmd c) (pushed-IsRunning cmd c h)

pub pushed_all-queue : (cmds : List Cmd) (c : Client) → (pushed_all cmds c).queue ≡ c.queue ++ cmds
pushed_all-queue [] c = sym (append-nil c.queue)
pushed_all-queue (cmd ∷ cmds) c =
    pushed_all-queue cmds (pushed cmd c) ∙ append_assoc c.queue (cmd ∷ []) cmds

pub pushed_all-append :
    (xs ys : List Cmd) (c : Client) → pushed_all (xs ++ ys) c ≡ pushed_all ys (pushed_all xs c)
pushed_all-append [] ys c = refl
pushed_all-append (x ∷ xs) ys c = pushed_all-append xs ys (pushed x c)

-- The channel holds no more than its capacity.
pub record IsBounded (c : Client) : Type 0 where
  pub some_room : 1 ≤ c.capacity
  pub bounded : length c.queue ≤ c.received + c.capacity

pushed-IsBounded : (cmd : Cmd) (c : Client) → IsBounded c → IsBounded (pushed cmd c)
pushed-IsBounded cmd c h = record {
  some_room = h.some_room;
  bounded = ground (arith, length-append c.queue (cmd ∷ []), h.some_room, h.bounded);
}

pub pushed_all-IsBounded :
    (cmds : List Cmd) (c : Client) → IsBounded c → IsBounded (pushed_all cmds c)
pushed_all-IsBounded [] c h = h
pushed_all-IsBounded (cmd ∷ cmds) c h =
    pushed_all-IsBounded cmds (pushed cmd c) (pushed-IsBounded cmd c h)
