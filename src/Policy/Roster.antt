-- ===== src/Policy/Roster.antt =====
-- The kernels that the callout may grant on.
use pg_ck.Prelude.{
  Option, none, some, subst, ℕ, ◌≡◌, refl, ◌↔◌, ◌≢◌, ap, sym, Bool, true, false, not, List, [], ◌∷◌,
  ◌++◌, arith, map, filter, any, All, Any, All-append, Any-append_left, Any-append_right,
  Bool-cases, inl, inr, ◌⊎◌,
}
use pg_ck.Text.{Text, codes, text_eq, text_eq_iff, split, trim, Lacks}
use pg_ck.Policy
use pg_ck.Policy.{
  Gucs, Caches, is_metachar, is_kernel_name, clean_kernels, configured_kernels, set_ledger_kernels,
  contains, union, refresh_callout_policy, callout_policy, unwrap_or,
}

-- One token of a subject that is no wildcard and holds no space, tab or line end.
pub record IsKernelName (k : Text) : Type 0 where
  pub filled : k ≢ []
  pub dotless : Lacks b'.' k
  pub starless : Lacks b'*' k
  pub restless : Lacks b'>' k
  pub spaceless : Lacks b' ' k
  pub tabless : Lacks 9 k
  pub returnless : Lacks 13 k
  pub feedless : Lacks 10 k

abbrev pub Has : Text → List Text → Type 0
Has k = Any (λ j. j ≡ k)

any-Lacks : (b : ℕ) (s : Text) → (is_metachar b ≡ true) → any is_metachar s ≡ false → Lacks b s
any-Lacks b [] m h = tt
any-Lacks b (c ∷ s) m h = elim (Bool-cases (is_metachar c)) [
  | inl e ↦ absurd (cc (rw e at h))
  | inr e ↦ ((λ same. cc (ap is_metachar same)), any-Lacks b s m (rw e at h))
]

is_kernel_name-IsKernelName : (k : Text) → is_kernel_name k ≡ true → IsKernelName k
is_kernel_name-IsKernelName k h =
    let (filled, plain) = both k h in
    record {
      filled = filled;
      dotless = any-Lacks b'.' k refl plain;
      starless = any-Lacks b'*' k refl plain;
      restless = any-Lacks b'>' k refl plain;
      spaceless = any-Lacks b' ' k refl plain;
      tabless = any-Lacks 9 k refl plain;
      returnless = any-Lacks 13 k refl plain;
      feedless = any-Lacks 10 k refl plain;
    }
  where
    both : (k : Text) → is_kernel_name k ≡ true → (k ≢ []) × (any is_metachar k ≡ false)
    both [] h = absurd (cc)
    both (c ∷ s) h = (λ e. absurd (ground arith), not-true (any is_metachar (c ∷ s)) h)
      where
        not-true : (b : Bool) → not b ≡ true → b ≡ false
        not-true true e = sym e
        not-true false e = refl

any-is_metachar :
    (k : Text)
    → Lacks b'.' k
      × Lacks b'*' k
      × Lacks b'>' k
      × Lacks b' ' k
      × Lacks 9 k
      × Lacks 13 k
      × Lacks 10 k
    → any is_metachar k ≡ false
any-is_metachar [] h = refl
any-is_metachar (c ∷ k) ((d, ds), (s, ss), (r, rs), (p, ps), (t, ts), (n, ns), (f, fs)) =
    let plain : is_metachar c ≡ false = ground arith in
    rw plain (any-is_metachar k (ds, ss, rs, ps, ts, ns, fs))

IsKernelName-is_kernel_name : (k : Text) → IsKernelName k → is_kernel_name k ≡ true
IsKernelName-is_kernel_name [] h = absurd (h.filled refl)
IsKernelName-is_kernel_name (c ∷ k) h =
    rw
      (any-is_metachar (c ∷ k)
        (h.dotless, h.starless, h.restless, h.spaceless, h.tabless, h.returnless, h.feedless))
      refl

-- A kernel's name that is one of these texts, with the white space around it taken away.
pub record IsAmong (k : Text) (ks : List Text) : Type 0 where
  pub name : IsKernelName k
  pub trimmed : Any (λ j. trim j ≡ k) ks

-- The texts between the commas of `pgck.kernels`, if it is set.
abbrev pub entries : Option Text → List Text
entries none = []
entries (some kernels) = split b',' kernels

filter_sound :
    (k : Text) (ks : List Text)
    → Has k (filter is_kernel_name (map trim ks))
    → Any (λ j. trim j ≡ k) ks × (is_kernel_name k ≡ true)
filter_sound k [] h = absurd h
filter_sound k (j ∷ ks) h = elim (Bool-cases (is_kernel_name (trim j))) [
  | inl e ↦ elim ((λ (a : Has k (trim j ∷ filter is_kernel_name (map trim ks))). a) (rw e at h)) [
    | inl same ↦ (inl same, subst (λ i. is_kernel_name i ≡ true) same e)
    | inr later ↦ let (any_later, named) = filter_sound k ks later in (inr any_later, named)
  ]
  | inr e ↦ let (any_later, named) = filter_sound k ks (rw e at h) in (inr any_later, named)
]

filter_complete :
    (k : Text) (ks : List Text)
    → Any (λ j. trim j ≡ k) ks
    → is_kernel_name k ≡ true
    → Has k (filter is_kernel_name (map trim ks))
filter_complete k [] h named = absurd h
filter_complete k (j ∷ ks) (inl same) named =
    rw (subst (λ i. is_kernel_name i ≡ true) (sym same) named) (inl same)
filter_complete k (j ∷ ks) (inr h) named = elim (Bool-cases (is_kernel_name (trim j))) [
  | inl e ↦ rw e (inr (filter_complete k ks h named))
  | inr e ↦ rw e (filter_complete k ks h named)
]

pub clean_kernels_iff : (k : Text) (ks : List Text) → Has k (clean_kernels ks) ↔ IsAmong k ks
unfolding clean_kernels
clean_kernels_iff k ks = (
  λ h.
      let (trimmed, named) = filter_sound k ks h in
      record { name = is_kernel_name-IsKernelName k named; trimmed = trimmed },
  λ h. filter_complete k ks h.trimmed (IsKernelName-is_kernel_name k h.name),
)

entries_iff :
    (k : Text) (setting : Option Text)
    → IsAmong k (split b',' (unwrap_or [] setting)) ↔ IsAmong k (entries setting)
unfolding split trim
entries_iff k none = (
  λ h. elim h.trimmed [ inl empty ↦ absurd (h.name.filled (sym empty)) | inr never ↦ absurd never ],
  λ h. absurd h.trimmed,
)
entries_iff k (some kernels) = (λ h. h, λ h. h)

pub configured_kernels_iff :
    (k : Text) (g : Gucs) → Has k (configured_kernels g) ↔ IsAmong k (entries g.kernels)
unfolding configured_kernels
configured_kernels_iff k g =
    let cleaned = clean_kernels_iff k (split b',' (unwrap_or [] g.kernels)) in
    let set = entries_iff k g.kernels in (λ h. set.0 (cleaned.0 h), λ h. cleaned.1 (set.1 h))

All-filter : (ks : List Text) → All IsKernelName (filter is_kernel_name ks)
All-filter [] = tt
All-filter (k ∷ ks) = elim (Bool-cases (is_kernel_name k)) [
  | inl e ↦ rw e (is_kernel_name-IsKernelName k e, All-filter ks)
  | inr e ↦ rw e (All-filter ks)
]

pub clean_kernels-All : (ks : List Text) → All IsKernelName (clean_kernels ks)
unfolding clean_kernels
clean_kernels-All ks = All-filter (map trim ks)

union-All :
    (P : Text → Type 0) (kernels ledger : List Text)
    → All P kernels
    → All P ledger
    → All P (union kernels ledger)
unfolding union
union-All P kernels [] h hs = h
union-All P kernels (k ∷ ledger) h (hk, hs) = elim (Bool-cases (contains kernels k)) [
  | inl e ↦ rw e (union-All P kernels ledger h hs)
  | inr e ↦
      rw e (union-All P (kernels ++ k ∷ []) ledger (All-append P kernels (k ∷ []) h (hk, tt)) hs)
]

contains-Has : (ks : List Text) (k : Text) → contains ks k ≡ true → Has k ks
contains-Has [] k h = absurd (cc)
contains-Has (j ∷ ks) k h = elim (Bool-cases (text_eq j k)) [
  | inl e ↦ inl ((text_eq_iff j k).0 e)
  | inr e ↦ inr (contains-Has ks k (rw e at h))
]

Any-append-cases : (k : Text) (xs ys : List Text) → Has k (xs ++ ys) → Has k xs ⊎ Has k ys
Any-append-cases k [] ys h = inr h
Any-append-cases k (x ∷ xs) ys (inl e) = inl (inl e)
Any-append-cases k (x ∷ xs) ys (inr h) = elim (Any-append-cases k xs ys h) [
  | inl l ↦ inl (inr l)
  | inr r ↦ inr r
]

pub union-left :
    (k : Text) (kernels ledger : List Text) → Has k kernels → Has k (union kernels ledger)
unfolding union
union-left k kernels [] h = h
union-left k kernels (j ∷ ledger) h = elim (Bool-cases (contains kernels j)) [
  | inl e ↦ rw e (union-left k kernels ledger h)
  | inr e ↦ rw e (union-left k (kernels ++ j ∷ []) ledger (Any-append_left _ kernels (j ∷ []) h))
]

pub union-right :
    (k : Text) (kernels ledger : List Text) → Has k ledger → Has k (union kernels ledger)
unfolding union
union-right k kernels [] h = absurd h
union-right k kernels (j ∷ ledger) (inl same) = elim (Bool-cases (contains kernels j)) [
  | inl e ↦ rw e (union-left k kernels ledger (rw same at (contains-Has kernels j e)))
  | inr e ↦
      rw e
        (union-left k (kernels ++ j ∷ []) ledger (Any-append_right _ kernels (j ∷ []) (inl same)))
]
union-right k kernels (j ∷ ledger) (inr h) = elim (Bool-cases (contains kernels j)) [
  | inl e ↦ rw e (union-right k kernels ledger h)
  | inr e ↦ rw e (union-right k (kernels ++ j ∷ []) ledger h)
]

union-from :
    (k : Text) (kernels ledger : List Text)
    → Has k (union kernels ledger)
    → Has k kernels ⊎ Has k ledger
unfolding union
union-from k kernels [] h = inl h
union-from k kernels (j ∷ ledger) h = elim (Bool-cases (contains kernels j)) [
  | inl e ↦ elim (union-from k kernels ledger (rw e at h)) [ inl l ↦ inl l | inr r ↦ inr (inr r) ]
  | inr e ↦ elim (union-from k (kernels ++ j ∷ []) ledger (rw e at h)) [
    | inl l ↦ elim (Any-append-cases k kernels (j ∷ []) l) [
      | inl old ↦ inl old
      | inr new ↦ elim new [ inl same ↦ inr (inl same) | inr never ↦ absurd never ]
    ]
    | inr r ↦ inr (inr r)
  ]
]

-- After a refresh, the policy carries the current `admit_anonymous` and grants on exactly these names:
-- the entries of `pgck.kernels` between its commas, and those of the ledger as it was last read, in
-- each case with the white space around them taken away, that are not empty and hold no dot, no
-- wildcard, no space, no tab and no line end.
pub refresh_callout_policy_iff :
    (g : Gucs) (ledger : List Text) (c : Caches) (k : Text)
    → ((callout_policy (refresh_callout_policy g (set_ledger_kernels ledger c))).0
        ≡ g.admit_anonymous)
      × (Has k (callout_policy (refresh_callout_policy g (set_ledger_kernels ledger c))).1
          ↔ (IsAmong k (entries g.kernels) ⊎ IsAmong k ledger))
unfolding callout_policy refresh_callout_policy set_ledger_kernels
refresh_callout_policy_iff g ledger c k = (
  refl,
  (
    λ h. elim (union-from k (configured_kernels g) (clean_kernels ledger) h) [
      | inl l ↦ inl ((configured_kernels_iff k g).0 l)
      | inr r ↦ inr ((clean_kernels_iff k ledger).0 r)
    ],
    λ h. elim h [
      | inl l ↦
          union-left k (configured_kernels g) (clean_kernels ledger)
            ((configured_kernels_iff k g).1 l)
      | inr r ↦
          union-right k (configured_kernels g) (clean_kernels ledger)
            ((clean_kernels_iff k ledger).1 r)
    ],
  ),
)

-- The steps that the worker takes on the caches, in any order.
pub data Update : Type 0 where
  refresh : Gucs → Update
  read_ledger : List Text → Update

abbrev pub update : Caches → Update → Caches
update c (refresh g) = refresh_callout_policy g c
update c (read_ledger ks) = set_ledger_kernels ks c

abbrev pub run : Caches → List Update → Caches
run c [] = c
run c (u ∷ us) = run (update c u) us

-- Every name that either cache holds is a kernel name.
pub record IsClean (c : Caches) : Type 0 where
  pub policy : All IsKernelName (callout_policy c).1
  pub ledger : All IsKernelName c.ledger_kernels

pgck-IsKernelName : IsKernelName (codes "pgck")
pgck-IsKernelName = is_kernel_name-IsKernelName (codes "pgck") refl

update-IsClean : (c : Caches) (u : Update) → IsClean c → IsClean (update c u)
unfolding refresh_callout_policy set_ledger_kernels callout_policy
update-IsClean c (refresh g) h = record {
  policy =
      union-All IsKernelName (configured_kernels g) c.ledger_kernels
        (clean_kernels-All (split b',' (unwrap_or [] g.kernels))) h.ledger;
  ledger = h.ledger;
}
update-IsClean c (read_ledger ks) h = record { policy = h.policy; ledger = clean_kernels-All ks }

run-IsClean : (us : List Update) (c : Caches) → IsClean c → IsClean (run c us)
run-IsClean [] c h = h
run-IsClean (u ∷ us) c h = run-IsClean us (update c u) (update-IsClean c u h)

-- Whatever the configuration and the ledger hold, and however often they are read, before the first
-- refresh and after it, the responder grants only on names that are one token of a subject: not empty,
-- with no dot, wildcard, space, tab or line end.
pub run-All_names : (us : List Update) → All IsKernelName (callout_policy (run Policy.initial us)).1
unfolding callout_policy
run-All_names us =
    (run-IsClean us Policy.initial
      (record { policy = (pgck-IsKernelName, tt); ledger = tt })).policy
