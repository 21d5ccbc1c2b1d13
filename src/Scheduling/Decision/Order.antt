-- ===== src/Scheduling/Decision/Order.antt =====
-- The part of `DecideAdvance` (application/scheduling/decision.go) that puts the states into the
-- order of the plan: the result does not depend on the order in which the states are given.
use mathlib.Core.List.{
  Mem, Nodup, Perm, mem-cons, mem-cons_self, not-mem-nil, perm_middle, perm-cons, Nodup-cons,
  mem-cons_of_mem, Nodup-nil, mem-map_of_mem, map-append, mem-append_right, append-nil, Permᴰ,
}
use mathlib.Core.List.Perm
use mathlib.Core.Logic.Or
use mathlib.Core.Logic.{∥∥₁_elim}
use native.Mathlib.Nat.{ℕ_set}
use healix_core.Prelude.{
  Text, suc, true, false, ◌≡◌, refl, sym, ◌∙◌, ap, ap₂, subst, inl, inr, ◌↔◌, List, [], ◌∷◌, ◌++◌,
  map, Option, none, some, length, text_eq, text_eq_sound, text_eq_refl, is_empty, Result, ok, err,
  >>=-eq-ok, Option-cases, Bool-cases, arith, ok_injective, reject-eq-ok, require-eq-ok, ◌==◌,
  ==_iff,
}
use healix_core.Execution.Snapshot.{Entry, InstanceSnapshot}
use healix_core.Scheduling.Decision.{
  EntryState, Decision, DecideError, entry_states_invalid, find_state, delete_state, index_states,
  order_states, advance_ordered, decide_advance,
}

abbrev pub keys : List EntryState → List Text
keys = map (λ st. st.entry_id)

abbrev pub ids : List Entry → List Text
ids = map (λ e. e.id)

find_state_absent : (id : Text) (l : List EntryState) → ¬ Mem id (keys l) → find_state id l ≡ none
unfolding find_state
find_state_absent id [] n = refl
find_state_absent id (st ∷ l) n = elim (Bool-cases (text_eq st.entry_id id)) [
  | inl h ↦ absurd (n (mem-cons.1 (Or.inl (sym (text_eq_sound st.entry_id id h)))))
  | inr h ↦ rw h (find_state_absent id l (λ m. n (mem-cons_of_mem st.entry_id m)))
]

find_state-none : (id : Text) (l : List EntryState) → find_state id l ≡ none → ¬ Mem id (keys l)
unfolding find_state
find_state-none id [] h m = not-mem-nil m
find_state-none id (st ∷ l) h m = elim (Bool-cases (text_eq st.entry_id id)) [
  | inl e ↦ let q : some st ≡ none = rw e at h in cc
  | inr e ↦
      Or.elim (λ x y. absurd x) (mem-cons.0 m) (λ q. cc (e, text_eq_refl id, q))
        (find_state-none id l (rw e at h))
]

find_state-some :
    (id : Text) (l : List EntryState) (st : EntryState)
    → find_state id l ≡ some st
    → (st.entry_id ≡ id) × Perm l (st ∷ delete_state id l)
unfolding find_state delete_state
find_state-some id [] st h = cc
find_state-some id (x ∷ l) st h = elim (Bool-cases (text_eq x.entry_id id)) [
  | inl e ↦
      let q : x ≡ st = ground arith in
      rw e (
        subst (λ y. (y.entry_id ≡ id) × Perm (x ∷ l) (y ∷ l)) q
          (text_eq_sound x.entry_id id e, Perm.refl (x ∷ l)))
  | inr e ↦
      let (i, p) = find_state-some id l st (ground arith) in
      rw e (i, Perm.trans (Perm.cons x p) (Perm.swap st x (delete_state id l)))
]

EntryState-set : IsSet (Option EntryState)
EntryState-set = hlevel

find_state-mem :
    (st : EntryState) (l : List EntryState)
    → Nodup (keys l)
    → Mem st l
    → find_state st.entry_id l ≡ some st
unfolding find_state
find_state-mem st [] n m = absurd (not-mem-nil m)
find_state-mem st (x ∷ l) n m =
    Or.elim (EntryState-set _ _) (mem-cons.0 m)
      (λ q. subst (λ y. find_state st.entry_id (y ∷ l) ≡ some st) q (rw (text_eq_refl st.entry_id)))
      λ k. elim (Bool-cases (text_eq x.entry_id st.entry_id)) [
        | inl e ↦ absurd (
            (Nodup-cons.0 n).0
              (subst (λ i. Mem i (keys l)) (sym (text_eq_sound _ _ e)) (mem-map_of_mem _ k)))
        | inr e ↦ rw e (find_state-mem st l (Nodup-cons.0 n).1 k)
      ]

-- `byID` holds the states given, and no identity twice.
index_states-perm :
    (acc l r : List EntryState)
    → Nodup (keys acc)
    → index_states acc l ≡ ok r
    → Perm r (l ++ acc) × Nodup (keys r)
unfolding index_states
index_states-perm acc [] r n h =
    subst (λ x. Perm x acc × Nodup (keys x)) (ok_injective h) (Perm.refl acc, n)
index_states-perm acc (st ∷ l) r n h = elim (Option-cases (find_state st.entry_id acc)) [
  | inl e ↦
      let (p, m) =
        index_states-perm (st ∷ acc) l r (Nodup-cons.1 (find_state-none st.entry_id acc e, n))
          (rw (e, index_states) at h) in
      (Perm.trans p (perm_middle l acc), m)
  | inr (x, e) ↦
      let q : ◌≡◌ {A = Result DecideError (List EntryState)} (err entry_states_invalid) (ok r) =
        rw (e, index_states) at h in
      cc
]

index_states-total :
    (acc l : List EntryState)
    → Nodup (keys (l ++ acc))
    → (r : List EntryState) × (index_states acc l ≡ ok r)
unfolding index_states
index_states-total acc [] n = (acc, refl)
index_states-total acc (st ∷ l) n =
    let m = Perm.nodup (Perm.map _ (Perm.symm (perm_middle l acc))) n in
    let a : ¬ Mem st.entry_id (keys acc) = λ k.
      (Nodup-cons.0 n).0
        (subst (Mem st.entry_id) (sym (map-append _ l acc)) (mem-append_right (keys l) k)) in
    let (r, e) = index_states-total (st ∷ acc) l m in
    (r, rw (find_state_absent st.entry_id acc a, index_states) e)

order_states-perm :
    (entries : List Entry) (m o left : List EntryState)
    → order_states entries m ≡ ok (o, left)
    → Perm m (o ++ left) × (keys o ≡ ids entries)
unfolding order_states
order_states-perm [] m o left h =
    let q = ok_injective h in
    (
      subst (λ (x : List EntryState × List EntryState). Perm m (x.0 ++ x.1)) q (Perm.refl m),
      ap (λ (x : List EntryState × List EntryState). keys x.0) (sym q),
    )
order_states-perm (e ∷ entries) m o left h = elim (Option-cases (find_state e.id m)) [
  | inl n ↦
      let q : ◌≡◌ {A = Result DecideError (List EntryState × List EntryState)}
          (err entry_states_invalid) (ok (o, left)) =
        rw (n, order_states) at h in
      cc
  | inr (st, f) ↦
      let (p, g, r) =
        >>=-eq-ok (order_states entries (delete_state e.id m)) _ (rw (f, order_states) at h) in
      let (i, k) = find_state-some e.id m st f in
      let (u, v) = order_states-perm entries (delete_state e.id m) p.0 p.1 g in
      let q = ok_injective r in
      subst
        (λ (x : List EntryState × List EntryState).
          Perm m (x.0 ++ x.1) × (keys x.0 ≡ ids (e ∷ entries)))
        q (Perm.trans k (Perm.cons st u), ap₂ (λ a b. a ∷ b) i v)
]

order_states-total :
    (entries : List Entry) (m o : List EntryState)
    → Perm m o
    → keys o ≡ ids entries
    → Nodup (keys m)
    → order_states entries m ≡ ok (o, [])
unfolding order_states
order_states-total [] m [] p k n = rw (Perm.eq-nil p)
order_states-total [] m (st ∷ o) p k n = cc
order_states-total (e ∷ entries) m [] p k n = cc
order_states-total (e ∷ entries) m (st ∷ o) p k n =
    let i : st.entry_id ≡ e.id = cc in
    let f : find_state e.id m ≡ some st =
      subst (λ x. find_state x m ≡ some st) i
        (find_state-mem st m n ((Perm.mem_iff p).1 mem-cons_self)) in
    let (_, q) = find_state-some e.id m st f in
    let r = (perm-cons st).0 (Perm.trans (Perm.symm q) p) in
    let u = (Nodup-cons.0 (Perm.nodup (Perm.map _ q) n)).1 in
    rw (f, order_states) (rw (order_states-total entries (delete_state e.id m) o r (cc) u))

nothing_left : (o left : List EntryState) → (length left == 0) ≡ true → o ++ left ≡ o
nothing_left o [] h = append-nil o
nothing_left o (st ∷ left) h = ground arith

-- The states of a plan in plan order.
abbrev pub IsOrdering : InstanceSnapshot → List EntryState → List EntryState → Type 0
IsOrdering snapshot states ordered =
    Perm states ordered
    × (keys ordered ≡ ids snapshot.plan.entries)
    × Nodup (ids snapshot.plan.entries)

length_of_permᴰ {ℓ} : {A : Type ℓ} {l r : List A} → Permᴰ l r → length l ≡ length r
length_of_permᴰ Permᴰ.nil = refl
length_of_permᴰ (Permᴰ.cons e p) = ap suc (length_of_permᴰ p)
length_of_permᴰ (Permᴰ.swap e f) = refl
length_of_permᴰ (Permᴰ.trans p q) = length_of_permᴰ p ∙ length_of_permᴰ q

length_of_perm {ℓ} : {A : Type ℓ} {l r : List A} → Perm l r → length l ≡ length r
length_of_perm p = ∥∥₁_elim p (ℕ_set _ _) length_of_permᴰ

length-map {ℓ κ} : {A : Type ℓ} {B : Type κ} (f : A → B) (l : List A) → length (map f l) ≡ length l
length-map f [] = refl
length-map f (x ∷ l) = ap suc (length-map f l)

-- `DecideAdvance` gives a decision exactly when the snapshot is sealed by a digest and the states,
-- in whatever order they are given, are one for each entry of the plan, whose entries have
-- distinct identities; the decision is then the one on the states in plan order.
pub decide_advance_iff :
    (snapshot : InstanceSnapshot) (states : List EntryState) (d : Decision)
    → (decide_advance snapshot states ≡ ok d) ↔ (
        (is_empty snapshot.digest ≡ false)
        × ((ordered : List EntryState) × IsOrdering snapshot states ordered
            × (advance_ordered snapshot.plan.failure_policy snapshot.plan.entries ordered ≡ ok d)))
unfolding decide_advance
decide_advance_iff snapshot states d = (into, back)
  where
    entries : List Entry
    entries = snapshot.plan.entries

    into :
        decide_advance snapshot states ≡ ok d
        → (is_empty snapshot.digest ≡ false)
          × ((ordered : List EntryState) × IsOrdering snapshot states ordered
              × (advance_ordered snapshot.plan.failure_policy entries ordered ≡ ok d))
    into h =
        let (sealed, h₁) = reject-eq-ok (is_empty snapshot.digest) _ h in
        let (_, h₂) = require-eq-ok (length states == length entries) _ h₁ in
        let (m, e, h₃) = >>=-eq-ok (index_states [] states) _ h₂ in
        let (o, f, h₄) = >>=-eq-ok (order_states entries m) _ h₃ in
        let (g, h₅) = require-eq-ok (length o.1 == 0) _ h₄ in
        let (p, n) = index_states-perm [] states m Nodup-nil e in
        let (q, k) = order_states-perm entries m o.0 o.1 f in
        let r : Perm m o.0 = subst (Perm m) (nothing_left o.0 o.1 g) q in
        (
          sealed,
          (
            o.0,
            (
              Perm.trans (Perm.symm (subst (Perm m) (append-nil states) p)) r,
              k,
              subst Nodup k (Perm.nodup (Perm.map _ r) n),
            ),
            h₅,
          ),
        )

    back :
        (is_empty snapshot.digest ≡ false)
          × ((ordered : List EntryState) × IsOrdering snapshot states ordered
              × (advance_ordered snapshot.plan.failure_policy entries ordered ≡ ok d))
        → decide_advance snapshot states ≡ ok d
    back (sealed, (ordered, (p, k, n), a)) =
        let v : Nodup (keys states) =
          Perm.nodup (Perm.map _ (Perm.symm p)) (subst Nodup (sym k) n) in
        let (m, e) =
          index_states-total [] states (subst (λ x. Nodup (keys x)) (sym (append-nil states)) v) in
        let (q, u) = index_states-perm [] states m Nodup-nil e in
        let r : Perm m ordered = Perm.trans (subst (Perm m) (append-nil states) q) p in
        let l : length states ≡ length entries =
          length_of_perm p ∙ sym (length-map _ ordered) ∙ ap length k ∙ length-map _ entries in
        rw sealed (
          rw ((==_iff (length states) (length entries)).1 l)
            (rw e (rw (order_states-total entries m ordered r k u) a)))
