-- ===== src/Heal/Lcs/Narrow.antt =====
-- `narrowByPathLCS` (domain/heal/lcs.go) against a filter by the exact score of each candidate.
use healix_core.Prelude.{
  Text, ℕ, zero, suc, ◌+◌, ◌≤◌, ◌≡◌, refl, ap, sym, subst, inl, inr, Bool, true, false, ◌&&◌, List,
  [], ◌∷◌, ◌++◌, some, length, take, drop, ltb, leb, if◌then◌else◌, arith, ◌∙◌, Bool-cases, map,
  length-append,
}
use healix_core.Heal.Lcs.{
  lcs_length_with_buffer, longer_first, zeros, shortest_path_loop, shortest_path_length, raised,
  shorter, split_buffer, distances_loop, keep_loop, narrow_by_path_lcs,
}
use healix_core.Heal.Lcs.Spec.{IsLcs, IsLcs-unique}
use healix_core.Heal.Lcs.Correct.{
  lcs_length_with_buffer-IsLcs, length-zeros, longer_first-IsLcs, lcs_length-IsLcs,
}

-- The candidates that pass a test, in their order.
abbrev pub filter : {C : Type 0} → (C → Bool) → List C → List C
filter p [] = []
filter p (c ∷ candidates) = if p c then c ∷ filter p candidates else filter p candidates

abbrev pub all : {C : Type 0} → (C → Bool) → List C → Bool
all p [] = true
all p (c ∷ candidates) = p c && all p candidates

filter_cong :
    {C : Type 0} {p q : C → Bool} (candidates : List C)
    → ((c : C) → p c ≡ q c)
    → filter p candidates ≡ filter q candidates
filter_cong [] h = refl
filter_cong (c ∷ candidates) h = rw (h c, filter_cong candidates h)

length-take-drop :
    (n : ℕ) (xs : List ℕ)
    → n ≤ length xs
    → (length (take n xs) ≡ n) × (n + length (drop n xs) ≡ length xs)
length-take-drop zero xs h = (refl, omega arith)
length-take-drop (suc n) [] h = absurd (omega arith)
length-take-drop (suc n) (x ∷ xs) h =
    let (a, b) = length-take-drop n xs (omega arith) in (ap suc a, omega arith)

module _ {C : Type 0} (path : C → List Text) (target : List Text) where
  -- The tags in the shorter of the two paths.
  abbrev narrow_columns : C → ℕ
  narrow_columns c = length (longer_first target (path c)).1

  abbrev Fits : ℕ → List C → Type 0
  Fits n [] = Unit {0}
  Fits n (c ∷ candidates) = (narrow_columns c + 1 ≤ n) × Fits n candidates

  -- The score that the table computes, as a function of the candidate.
  abbrev score : C → ℕ
  score c = (lcs_length-IsLcs target (path c)).0

  abbrev peak : ℕ → List C → ℕ
  peak m [] = m
  peak m (c ∷ candidates) = peak (raised m (score c)) candidates

  distances_cons :
      (workspace own left dp ds : List ℕ) (m n p : ℕ) (c : C) (candidates : List C)
      → split_buffer (narrow_columns c + 1) workspace ≡ some (own, left)
      → lcs_length_with_buffer (longer_first target (path c)).0 (longer_first target (path c)).1 own
        ≡ some (n, dp)
      → distances_loop path target (dp ++ left) (raised m n) candidates ≡ some (ds, p)
      → distances_loop path target workspace m (c ∷ candidates) ≡ some (n ∷ ds, p)
  unfolding distances_loop
  distances_cons workspace own left dp ds m n p c candidates a b d =
      rw (a, distances_loop) (rw b (rw d))

  distances_loop-score :
      (workspace : List ℕ) (m : ℕ) (candidates : List C)
      → Fits (length workspace) candidates
      → distances_loop path target workspace m candidates
        ≡ some (map score candidates, peak m candidates)
  unfolding distances_loop
  distances_loop-score workspace m [] h = refl
  distances_loop-score workspace m (c ∷ candidates) (h, k) =
      let w = narrow_columns c + 1 in
      let (l, r) = length-take-drop w workspace h in
      let (n, dp, e, i, q) =
        lcs_length_with_buffer-IsLcs (longer_first target (path c)).0
          (longer_first target (path c)).1 (take w workspace) l in
      let s : n ≡ score c =
        IsLcs-unique target (path c) n (score c) (longer_first-IsLcs target (path c) n i)
          (lcs_length-IsLcs target (path c)).2 in
      distances_cons workspace (take w workspace) (drop w workspace) dp (map score candidates) m n
        (peak (raised m n) candidates) c candidates (split_fits w workspace h) e
        (distances_loop-score (dp ++ drop w workspace) (raised m n) candidates
          (subst (λ j. Fits j candidates) (kept w dp workspace (q ∙ l) r) k))
      ∙ ap (λ j. some (j ∷ map score candidates, peak (raised m j) candidates)) s
    where
      split_fits :
          (w : ℕ) (ws : List ℕ) → w ≤ length ws → split_buffer w ws ≡ some (take w ws, drop w ws)
      split_fits w ws h = ground arith

      kept :
          (w : ℕ) (dp ws : List ℕ)
          → length dp ≡ w
          → w + length (drop w ws) ≡ length ws
          → length ws ≡ length (dp ++ drop w ws)
      kept w dp ws a b = omega (arith, a, b, length-append dp (drop w ws))

  narrow_columns-shorter : (c : C) → narrow_columns c ≡ shorter target (path c)
  narrow_columns-shorter c = elim (Bool-cases (ltb (length target) (length (path c)))) [
    | inl e ↦ rw e
    | inr e ↦ rw e
  ]

  shortest_path_loop_grows :
      (longest : ℕ) (candidates : List C)
      → longest ≤ shortest_path_loop path target longest candidates
  unfolding shortest_path_loop
  shortest_path_loop_grows longest [] = omega arith
  shortest_path_loop_grows longest (c ∷ candidates) =
      let own = shorter target (path c) in
      grown longest own (shortest_path_loop path target (raised longest own) candidates)
        (shortest_path_loop_grows (raised longest own) candidates)
    where
      grown : (a b n : ℕ) → raised a b ≤ n → a ≤ n
      grown a b n h = ground arith

  -- The buffer has room for every candidate.
  shortest_path_loop-Fits :
      (n longest : ℕ) (candidates : List C)
      → shortest_path_loop path target longest candidates + 1 ≤ n
      → Fits n candidates
  unfolding shortest_path_loop
  shortest_path_loop-Fits n longest [] h = tt
  shortest_path_loop-Fits n longest (c ∷ candidates) h =
      let own = shorter target (path c) in
      (
        room longest own n (shortest_path_loop path target (raised longest own) candidates)
            (shortest_path_loop_grows (raised longest own) candidates) h (narrow_columns-shorter c),
        shortest_path_loop-Fits n (raised longest (shorter target (path c))) candidates h,
      )
    where
      room : (a b n s : ℕ) {w : ℕ} → raised a b ≤ s → s + 1 ≤ n → w ≡ b → w + 1 ≤ n
      room a b n s h k e = ground arith

  leb-peak :
      (m n : ℕ) (candidates : List C)
      → leb (peak m candidates) n ≡ (leb m n && all (λ c. leb (score c) n) candidates)
  leb-peak m n [] = ground arith
  leb-peak m n (c ∷ candidates) =
      leb-peak (raised m (score c)) n candidates
      ∙ bigger m (score c) n (all (λ c'. leb (score c') n) candidates)
    where
      bigger : (a b n : ℕ) (r : Bool) → (leb (raised a b) n && r) ≡ (leb a n && (leb b n && r))
      bigger a b n true = ground arith
      bigger a b n false = ground arith

  keep_loop-filter :
      (m : ℕ) (candidates : List C)
      → keep_loop m (map score candidates) candidates ≡ filter (λ c. leb m (score c)) candidates
  unfolding keep_loop
  keep_loop-filter m [] = refl
  keep_loop-filter m (c ∷ candidates) = rw (keep_loop-filter m candidates)

  -- `narrowByPathLCS` keeps, in their order, exactly the candidates whose path has with the target
  -- a longest common subsequence that is at least as long as that of every other candidate. The
  -- one buffer that the calls share is large enough for each of them.
  pub narrow_by_path_lcs-filter :
      (candidates : List C)
      → (size : C → ℕ) × ((c : C) → IsLcs target (path c) (size c))
        × (narrow_by_path_lcs path target candidates
            ≡ some (filter (λ c. all (λ c'. leb (size c') (size c)) candidates) candidates))
  unfolding narrow_by_path_lcs shortest_path_loop shortest_path_length
  narrow_by_path_lcs-filter [] = (score, (λ c. (lcs_length-IsLcs target (path c)).2), refl)
  narrow_by_path_lcs-filter (c ∷ candidates) = (
    score,
    (λ d. (lcs_length-IsLcs target (path d)).2),
    rw
        (
          distances_loop-score (zeros n) 0 every (
              subst (λ j. Fits j every) (sym (length-zeros n))
                (shortest_path_loop-Fits n 0 every (omega arith))),
          narrow_by_path_lcs,
        )
        (ap some (
          keep_loop-filter (peak 0 every) every
          ∙ filter_cong every (λ d.
            leb-peak 0 (score d) every
            ∙ from_zero (score d) (all (λ c'. leb (score c') (score d)) every)))),
  )
    where
      every : List C
      every = c ∷ candidates

      n : ℕ
      n = shortest_path_length path target every

      from_zero : (k : ℕ) (r : Bool) → (leb 0 k && r) ≡ r
      from_zero k r = ground arith
