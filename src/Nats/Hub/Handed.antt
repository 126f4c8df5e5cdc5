-- ===== src/Nats/Hub/Handed.antt =====
-- What a connection is handed is what was sent.
use pg_ck.Prelude.{
  All, All-append, All-append_left, All-append_right, inl, inr, length, append-nil, arith, ℕ, ◌≡◌,
  ◌∙◌, sym, subst, List, [], ◌∷◌, ◌++◌,
}
use pg_ck.Nats.Server.{Delivery}
use pg_ck.Nats.Hub.{Received, value, dropped, Broadcast, BroadcastLaws}
use pg_ck.Nats.Hub.Order.{Accounts, untold, got, lost, Follows, Noted, Follows-recv}
use pg_ck.Nats.Hub.Serves.{values_of, values_of-append}

-- What holds of everything sent holds of the values among the results.
Accounts-All :
    (P : Delivery → Type 0) {results : List Received} {heard : List Delivery}
    → Accounts results heard
    → All P heard
    → All P (values_of results)
Accounts-All P untold h = tt
Accounts-All P (got d {results = results} {heard = heard} a) h =
    subst (All P) (sym (values_of-append results (value d ∷ []))) (
      All-append P (values_of results) (d ∷ [])
        (Accounts-All P a (All-append_left P heard (d ∷ []) h))
        (All-append_right P heard (d ∷ []) h))
Accounts-All P (lost gone {results = results} {heard = heard} a) h =
    subst (All P)
      (sym (values_of-append results (dropped (length gone) ∷ []) ∙ append-nil (values_of results)))
      (Accounts-All P a (All-append_left P heard gone h))

module _ (b : Broadcast) (laws : BroadcastLaws b) (P : Delivery → Type 0) (n : ℕ) (tx : b.Channel)
    (log joined : List Delivery) (results : List Received) (d : Delivery) where
  noted-All : Noted b laws n tx log joined results → All P log → (b.recv n tx).0 ≡ value d → P d
  noted-All (inl (unready, _)) h same = absurd (ground (arith, unready, same))
  noted-All (inr (_, f)) h same =
      let told : All P (f.heard ++ (f.gone ++ f.waiting)) =
        All-append_right P joined (f.heard ++ (f.gone ++ f.waiting)) (subst (All P) f.all h) in
      let values = Accounts-All P f.told (All-append_left P f.heard (f.gone ++ f.waiting) told) in
      (All-append_right P (values_of results) (d ∷ []) (
        subst (All P) (values_of-append results (value d ∷ []))
          (subst (λ (r : Received). All P (values_of (results ++ r ∷ []))) same values))).0

  pub recv-All :
      Follows b laws n tx log joined results → All P log → (b.recv n tx).0 ≡ value d → P d
  recv-All f = noted-All (Follows-recv b laws n tx log joined results f)
