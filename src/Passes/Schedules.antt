-- ===== src/Passes/Schedules.antt =====
-- pkg/ephemeris/pass_predictor.go: what the worker pool of PredictPasses collects, in any interleaving
-- of its workers.
use mathlib.Core.List.{Perm, Pairwise, append-nil, append_assoc, perm_append_comm}
use mathlib.Core.List.Perm
use ntn_operators.Base.{
  ◌≤◌, ◌≡◌, refl, sym, subst, ap, ◌∙◌, inl, inr, Bool, true, false, Option, List, [], ◌∷◌, ◌++◌,
  length, all, all-append, all-perm, arith,
}
use ntn_operators.Passes.{PassResult, max_pass_windows}
use ntn_operators.Passes.Cap.{NotLess, Sorter, cap_per_satellite}
use ntn_operators.Passes.Predict.{predicted, conclude_passes}
use ntn_operators.Passes.Pool.{
  PoolState, passes_of, start_pool, PoolStep, receive, give_up, deliver, cancel, Reach, here, next,
  IsFinished,
}
use ntn_operators.Passes.Fairness.{cap_per_satellite-length, cap_per_satellite-all}

swap_front {ℓ} : {A : Type ℓ} (xs ys zs : List A) → Perm (xs ++ (ys ++ zs)) (ys ++ (xs ++ zs))
swap_front xs ys zs =
    rw (← append_assoc xs ys zs, ← append_assoc ys xs zs)
      (Perm.append_right zs (perm_append_comm xs ys))

received {ℓ} : {A : Type ℓ} (p r t : List A) → Perm ((p ++ r) ++ t) (r ++ (p ++ t))
received p r t = rw (append_assoc p r t) (swap_front p r t)

delivered {ℓ} :
    {A : Type ℓ} (a p c q m : List A)
    → Perm m (p ++ c)
    → Perm ((a ++ p) ++ (c ++ q)) (a ++ (m ++ q))
delivered a p c q m h =
    rw (append_assoc a p (c ++ q), ← append_assoc p c q)
      (Perm.append_left a (Perm.append_right q (Perm.symm h)))

module _ {ℓ} {W F : Type ℓ} (predict : W → Option (List (PassResult F))) where
  -- The passes of a list of items.
  abbrev pub collected : List W → List (PassResult F)
  collected [] = []
  collected (w ∷ ws) = passes_of (predict w) ++ collected ws

  collected-append : (v w : List W) → collected (v ++ w) ≡ collected v ++ collected w
  collected-append [] w = refl
  collected-append (x ∷ v) w =
      ap (λ l. passes_of (predict x) ++ l) (collected-append v w)
      ∙ sym (append_assoc (passes_of (predict x)) (collected v) (collected w))

  collected-middle :
      (before behind : List W) (w : W)
      → Perm
          (collected (before ++ (w ∷ behind)))
          (passes_of (predict w) ++ collected (before ++ behind))
  collected-middle [] behind w = Perm.rfl
  collected-middle (x ∷ before) behind w =
      Perm.trans (Perm.append_left (passes_of (predict x)) (collected-middle before behind w))
        (swap_front (passes_of (predict x)) (passes_of (predict w)) (collected (before ++ behind)))

  -- What has been collected and what is still to come, as long as the context is alive.
  abbrev IsAccounted : List W → PoolState W F → Type ℓ
  IsAccounted work s =
      s.cancelled ≡ false
      → Perm (s.all_passes ++ (collected s.running ++ collected s.queue)) (collected work)

  Step-IsAccounted :
      (work : List W) (s t : PoolState W F)
      → PoolStep predict s t
      → IsAccounted work s
      → IsAccounted work t
  Step-IsAccounted work s t (receive w rest q c room e) h = subst (IsAccounted work) (sym e) (λ k.
      Perm.trans
        (Perm.append_left s.all_passes
          (received (passes_of (predict w)) (collected s.running) (collected rest)))
        (subst (λ l. Perm (s.all_passes ++ (collected s.running ++ collected l)) (collected work)) q
          (h c)))
  Step-IsAccounted work s t (give_up w rest q c e) h =
      subst (IsAccounted work) (sym e) (λ k. absurd (cc))
  Step-IsAccounted work s t (deliver w before behind q e) h = subst (IsAccounted work) (sym e) (λ k.
      Perm.trans
        (delivered s.all_passes (passes_of (predict w)) (collected (before ++ behind))
          (collected s.queue) (collected (before ++ (w ∷ behind)))
          (collected-middle before behind w))
        (subst (λ l. Perm (s.all_passes ++ (collected l ++ collected s.queue)) (collected work)) q
          (h k)))
  Step-IsAccounted work s t (cancel e) h = subst (IsAccounted work) (sym e) (λ k. absurd (cc))

  Reach-IsAccounted :
      (work : List W) {s : PoolState W F}
      → Reach predict (start_pool predict work) s
      → IsAccounted work s
  unfolding start_pool
  Reach-IsAccounted work here = λ k. Perm.rfl
  Reach-IsAccounted work (next {t} {u} r st) =
      Step-IsAccounted work t u st (Reach-IsAccounted work r)

  -- When the pool is done and was not cancelled, the passes of all items have been collected, each as
  -- often as it was predicted, in whatever order the workers took and delivered the items.
  pub Reach-collected :
      (work : List W) (s : PoolState W F)
      → Reach predict (start_pool predict work) s
      → IsFinished predict s
      → s.cancelled ≡ false
      → Perm s.all_passes (collected work)
  Reach-collected work s r (idle, inr c) k = absurd (cc)
  Reach-collected work s r (idle, inl drained) k =
      subst (λ l. Perm l (collected work)) (append-nil s.all_passes)
        (subst (λ l. Perm (s.all_passes ++ (collected l ++ [])) (collected work)) idle
          (subst (λ l. Perm (s.all_passes ++ (collected s.running ++ collected l)) (collected work))
            drained (Reach-IsAccounted work r k)))

  -- A predicate of the passes of every item holds for all that is collected.
  Step-all :
      (good : PassResult F → Bool)
      → ((w : W) → all good (passes_of (predict w)) ≡ true)
      → (s t : PoolState W F) → PoolStep predict s t
      → all good s.all_passes ≡ true
      → all good t.all_passes ≡ true
  Step-all good g s t (receive w rest q c room e) h = rw (e) h
  Step-all good g s t (give_up w rest q c e) h = rw (e) h
  Step-all good g s t (deliver w before behind q e) h =
      rw (e) (all-append good s.all_passes (passes_of (predict w)) h (g w))
  Step-all good g s t (cancel e) h = rw (e) h

  pub Reach-all :
      (good : PassResult F → Bool)
      → ((w : W) → all good (passes_of (predict w)) ≡ true)
      → (work : List W) {s : PoolState W F} → Reach predict (start_pool predict work) s
      → all good s.all_passes ≡ true
  unfolding start_pool
  Reach-all good g work here = refl
  Reach-all good g work (next {t} {u} r st) = Step-all good g t u st (Reach-all good g work r)

-- What PredictPasses returns: sorted and capped, out of all passes of all items.
pub record IsPrediction {ℓ} {F : Type ℓ} ⦃sorter : Sorter F⦄ (all_passes ps : List (PassResult F))
    : Type ℓ where
  pub ordered_passes : List (PassResult F)
  pub complete : Perm ordered_passes all_passes
  pub ordered : Pairwise NotLess ordered_passes
  pub capped : ps ≡ cap_per_satellite ordered_passes max_pass_windows
  pub bounded : length ps ≤ max_pass_windows

module _ {ℓ} {W F : Type ℓ} ⦃sorter : Sorter F⦄ (predict : W → Option (List (PassResult F))) where
  conclude-predicted :
      (done err : Bool) (ps qs : List (PassResult F))
      → conclude_passes done err ps ≡ predicted qs
      → (done ≡ false) × (cap_per_satellite (sorter.sort ps) max_pass_windows ≡ qs)
  unfolding conclude_passes
  conclude-predicted done err ps qs h = ground (arith, h)

  -- Whatever the interleaving of the workers, a list of passes that PredictPasses returns after its
  -- pool is done is the capped form of one sorted arrangement of the passes of all items, and has at
  -- most 500 of them.
  pub conclude-IsPrediction :
      (work : List W) (s : PoolState W F) (ps : List (PassResult F))
      → Reach predict (start_pool predict work) s
      → IsFinished predict s
      → conclude_passes s.cancelled s.failed s.all_passes ≡ predicted ps
      → IsPrediction (collected predict work) ps
  conclude-IsPrediction work s ps r f h =
      let c = conclude-predicted s.cancelled s.failed s.all_passes ps h in
      record {
        ordered_passes = sorter.sort s.all_passes;
        complete =
            Perm.trans (sorter.sort-perm s.all_passes) (Reach-collected predict work s r f c.0);
        ordered = sorter.sort-ordered s.all_passes;
        capped = sym c.1;
        bounded =
            subst (λ l. length l ≤ max_pass_windows) c.1
              (cap_per_satellite-length (sorter.sort s.all_passes) max_pass_windows);
      }

  pub conclude-all :
      (good : PassResult F → Bool)
      → ((w : W) → all good (passes_of (predict w)) ≡ true)
      → (work : List W) (s : PoolState W F) (ps : List (PassResult F))
      → Reach predict (start_pool predict work) s
      → conclude_passes s.cancelled s.failed s.all_passes ≡ predicted ps
      → all good ps ≡ true
  conclude-all good g work s ps r h =
      let c = conclude-predicted s.cancelled s.failed s.all_passes ps h in
      subst (λ l. all good l ≡ true) c.1
        (cap_per_satellite-all good (sorter.sort s.all_passes) max_pass_windows
          (all-perm good (sorter.sort-perm s.all_passes) ∙ Reach-all predict good g work r))
