-- ===== src/Inbound/Queue.antt =====
-- What the queue keeps.
use pg_ck.Prelude.{
  ℕ, zero, suc, ltb→lt, ◌≤◌, ◌≡◌, refl, sym, ap, ◌∙◌, List, [], ◌∷◌, ◌++◌, arith, ltb, length, take,
  length-append, append_assoc, append-nil, Bool-cases, inl, inr,
}
use pg_ck.Inbound.{InboundAction, max_queue, enqueue, take_all}

-- The actions that arrive between two ticks.
abbrev pub enqueue_all : List InboundAction → List InboundAction → List InboundAction
enqueue_all q [] = q
enqueue_all q (a ∷ actions) = enqueue_all (enqueue a q) actions

pub take_short : (n : ℕ) (xs : List InboundAction) → length xs ≤ n → take n xs ≡ xs
take_short zero [] h = refl
take_short zero (x ∷ xs) h = absurd (omega arith)
take_short (suc n) [] h = refl
take_short (suc n) (x ∷ xs) h =
    ap (λ (l : List InboundAction). x ∷ l) (take_short n xs (omega arith))

take_full : (n : ℕ) (xs ys : List InboundAction) → n ≤ length xs → take n (xs ++ ys) ≡ take n xs
take_full zero xs ys h = refl
take_full (suc n) [] ys h = absurd (omega arith)
take_full (suc n) (x ∷ xs) ys h =
    ap (λ (l : List InboundAction). x ∷ l) (take_full n xs ys (omega arith))

pub enqueue_all-take :
    (q actions : List InboundAction)
    → length q ≤ max_queue
    → enqueue_all q actions ≡ take max_queue (q ++ actions)
unfolding enqueue
enqueue_all-take q [] h = sym (ap (take max_queue) (append-nil q) ∙ take_short max_queue q h)
enqueue_all-take q (a ∷ actions) h = elim (Bool-cases (ltb (length q) max_queue)) [
  | inl e ↦ rw e (
      enqueue_all-take (q ++ a ∷ []) actions (omega (arith, length-append q (a ∷ []), ltb→lt _ _ e))
      ∙ ap (take max_queue) (append_assoc q (a ∷ []) actions))
  | inr e ↦
      let full : max_queue ≤ length q = ground arith in
      rw e (
        enqueue_all-take q actions h
        ∙ take_full max_queue q actions full
        ∙ sym (take_full max_queue q (a ∷ actions) full))
]

-- Between two ticks, the queue takes the actions in the order of their arrival and keeps exactly the
-- first 1000 of them; the tick takes all of these and leaves the queue empty.
pub take_all-enqueue_all :
    (actions : List InboundAction)
    → take_all (enqueue_all [] actions) ≡ (take max_queue actions, [])
unfolding take_all
take_all-enqueue_all actions =
    ap (λ (q : List InboundAction). (q, [])) (enqueue_all-take [] actions (omega arith))
