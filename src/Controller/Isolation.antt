-- ===== src/Controller/Isolation.antt =====
-- What a reconcile of internal/controller/ntnslice_controller.go does to the anti-flap map, to the
-- entry of its slice and to those of others.
use ntn_operators.Base.{
  ℕ, ◌≡◌, ◌≢◌, ◌≤◌, refl, ◌∙◌, inl, inr, false, Option, none, some, String, arith, Bool-cases,
  Option-cases,
}
use ntn_operators.Base.Dict.{lookup, insert, delete, lookup-insert, lookup-delete}
use ntn_operators.Float.{Float}
use ntn_operators.Slice.AntiFlap.{AntiFlapState}
use ntn_operators.Controller.FlapState.{
  NamespacedName, name_key, same_name_iff, FlapStateEntry, FlapMap, renew, load_flap_state,
  store_flap_state, reset_recovery_streak,
}
use ntn_operators.Controller.Reconcile.{
  SliceObject, World, Inputs, read_path_quality, apply_decision, commit_flap,
  persist_status_if_changed, evaluate_slice, evaluate_reliable, reconcile,
}

same_name_ne : (a b : NamespacedName) → a ≢ b → name_key.same a b ≡ false
same_name_ne a b n = elim (Bool-cases (name_key.same a b)) [
  | inl e ↦ absurd (n ((same_name_iff a b).0 e))
  | inr e ↦ e
]

insert-other :
    (key k : NamespacedName) (e : FlapStateEntry) (m : FlapMap)
    → key ≢ k
    → lookup k (insert key e m) ≡ lookup k m
insert-other key k e m n = rw (lookup-insert key k e m, same_name_ne key k n)

delete-other :
    (key k : NamespacedName) (m : FlapMap) → key ≢ k → lookup k (delete key m) ≡ lookup k m
delete-other key k m n = rw (lookup-delete key k m, same_name_ne key k n)

load-other :
    (key k : NamespacedName) (uid : String) (generation : ℕ) (m : FlapMap)
    → key ≢ k
    → lookup k (load_flap_state key uid generation m).1 ≡ lookup k m
unfolding load_flap_state
load-other key k uid generation m n = elim (Option-cases (lookup key m)) [
  | inl e ↦ rw (e, load_flap_state) (delete-other key k m n)
  | inr (e, found) ↦
      rw (found, load_flap_state)
        (ground (arith, delete-other key k m n, insert-other key k (renew generation e) m n))
]

reset-other :
    (key k : NamespacedName) (m : FlapMap)
    → key ≢ k
    → lookup k (reset_recovery_streak key m) ≡ lookup k m
unfolding reset_recovery_streak
reset-other key k m n = elim (Option-cases (lookup key m)) [
  | inl e ↦ rw (e, reset_recovery_streak)
  | inr (e, found) ↦
      rw (found, reset_recovery_streak)
        (ground (
          arith,
          insert-other key k
              (record e {
                state = record (e.state) { recovery_observed_at = 0; consecutive_degraded = 0 };
              })
              m n,
        ))
]

commit-other :
    (o : SliceObject) (k : NamespacedName) (p : Option AntiFlapState) (m : FlapMap)
    → o.key ≢ k
    → lookup k (commit_flap o p m) ≡ lookup k m
unfolding commit_flap store_flap_state
commit-other o k none m n = refl
commit-other o k (some st) m n = insert-other o.key k _ m n

-- The entry stands for an entry of the map with the same object and dwell clock, and counts no more
-- confirmations than it.
abbrev pub Keeps : NamespacedName → FlapMap → FlapStateEntry → Type 0
Keeps key m e' =
    (e : FlapStateEntry) × (lookup key m ≡ some e)
    × (e'.uid ≡ e.uid)
    × (e'.state.last_switchback ≡ e.state.last_switchback)
    × (e'.state.consecutive_degraded ≤ e.state.consecutive_degraded)

pub insert_self :
    (key : NamespacedName) (e : FlapStateEntry) (m : FlapMap) → lookup key (insert key e m) ≡ some e
insert_self key e m = rw (lookup-insert key key e m, (same_name_iff key key).1 refl)

delete_self : (key : NamespacedName) (m : FlapMap) → lookup key (delete key m) ≡ none
delete_self key m = rw (lookup-delete key key m, (same_name_iff key key).1 refl)

load-own :
    (key : NamespacedName) (uid : String) (generation : ℕ) (m : FlapMap) (e' : FlapStateEntry)
    → lookup key (load_flap_state key uid generation m).1 ≡ some e'
    → Keeps key m e'
unfolding load_flap_state
load-own key uid generation m e' held = elim (Option-cases (lookup key m)) [
  | inl e ↦ absurd (cc (delete_self key m, rw (e, load_flap_state) at held))
  | inr (e, found) ↦
      ground (arith, found, held, delete_self key m, insert_self key (renew generation e) m)
]

reset-own :
    (key : NamespacedName) (m : FlapMap) (e' : FlapStateEntry)
    → lookup key (reset_recovery_streak key m) ≡ some e'
    → Keeps key m e'
unfolding reset_recovery_streak
reset-own key m e' held = elim (Option-cases (lookup key m)) [
  | inl e ↦ absurd (cc (e, rw (e, reset_recovery_streak) at held))
  | inr (e, found) ↦ ground (
    arith,
    found,
    held,
    insert_self key
        (record e {
          state = record (e.state) { recovery_observed_at = 0; consecutive_degraded = 0 };
        })
        m,
  )
]

module _ {ℓ} {F : Type ℓ} ⦃fl : Float F⦄ where
  evaluate-other :
      (o : SliceObject) (i : Inputs F) (w : World) (k : NamespacedName)
      → o.key ≢ k
      → lookup k (evaluate_slice o i w).flaps ≡ lookup k w.flaps
  unfolding evaluate_slice evaluate_reliable
  evaluate-other o i w k n = elim (Option-cases (read_path_quality i.now i.read)) [
    | inl none_read ↦ rw (none_read, evaluate_slice) (ground (arith, reset-other o.key k w.flaps n))
    | inr (v, reliable) ↦
        rw (reliable, evaluate_slice)
          (ground
            (arith, reset-other o.key k w.flaps n, load-other o.key k o.uid o.generation w.flaps n))
  ]

  evaluate-own :
      (o : SliceObject) (i : Inputs F) (w : World) (e' : FlapStateEntry)
      → lookup o.key (evaluate_slice o i w).flaps ≡ some e'
      → Keeps o.key w.flaps e'
  unfolding evaluate_slice evaluate_reliable
  evaluate-own o i w e' held = elim (Bool-cases i.known) [
    | inr gap ↦ reset-own o.key w.flaps e' (rw (gap, evaluate_slice) at held)
    | inl known ↦ elim (Option-cases (read_path_quality i.now i.read)) [
      | inl none_read ↦ reset-own o.key w.flaps e' (rw (known, none_read, evaluate_slice) at held)
      | inr (v, reliable) ↦
          load-own o.key o.uid o.generation w.flaps e'
            (rw (known, reliable, evaluate_slice) at held)
    ]
  ]

  -- A reconcile of one slice leaves the anti-flap state of every other slice as it was, whatever it
  -- reads and whether or not its status write succeeds.
  pub reconcile-isolates :
      (o : SliceObject) (i : Inputs F) (w : World) (k : NamespacedName)
      → o.key ≢ k
      → lookup k (reconcile o i w).flaps ≡ lookup k w.flaps
  unfolding reconcile
  reconcile-isolates o i w k n =
      let ev = evaluate_slice o i w in
      let others = evaluate-other o i w k n in
      elim (Option-cases
        (persist_status_if_changed i w.status (apply_decision i.now ev w.status))) [
          | inl failed ↦ rw (failed, reconcile) others
          | inr (status, stored) ↦
              rw (stored, reconcile) (commit-other o k ev.pending_flap ev.flaps n ∙ others)
        ]

  -- A reconcile whose status write fails changes neither the durable status nor the counter nor the
  -- events, and an entry of this slice that is left in memory has the object and the dwell
  -- clock that were there, and no more confirmations.
  pub failed_write-commits_nothing :
      (o : SliceObject) (i : Inputs F) (w : World) (e' : FlapStateEntry)
      → let w' = reconcile o i w in
        persist_status_if_changed i w.status (apply_decision i.now (evaluate_slice o i w) w.status)
          ≡ none
        → lookup o.key w'.flaps ≡ some e'
        → (w'.status ≡ w.status)
          × (w'.failover_total ≡ w.failover_total)
          × (w'.events ≡ w.events)
          × Keeps o.key w.flaps e'
  unfolding reconcile
  failed_write-commits_nothing o i w e' failed held =
      rw (failed, reconcile)
        (refl, refl, refl, evaluate-own o i w e' (rw (failed, reconcile) at held))
