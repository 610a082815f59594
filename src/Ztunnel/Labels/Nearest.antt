-- ===== src/Ztunnel/Labels/Nearest.antt =====
-- What findNearestLabel of pkg/accesslog/collector/ztunnel/ztunnel_offsets.go finds.
use skywalking_rover.Common.{
  ℕ, ◌≤◌, ◌≡◌, refl, sym, subst, ◌∙◌, ◌⊎◌, inl, inr, Bool, true, false, ◌&&◌, ◌||◌, List, [], ◌∷◌,
  Option, none, some, some_injective, arith, ltb, ◌==◌, All, Bool-cases,
}
use skywalking_rover.Ztunnel.Labels.{distance, is_label, closer, nearest_from, find_nearest_label}

module _ (principal : ℕ) (value : List ℕ) where
  -- One of the labels is at the offset.
  abbrev pub has_label : ℕ → List (ℕ × List ℕ) → Bool
  has_label off [] = false
  has_label off (e ∷ es) = (e.0 == off && is_label principal value e) || has_label off es

  -- No label is nearer than an offset.
  abbrev pub NoneNearer : ℕ → List (ℕ × List ℕ) → Type 0
  NoneNearer off = All (λ (e : ℕ × List ℕ).
      is_label principal value e ≡ true → distance principal off ≤ distance principal e.0)

  abbrev pub NoLabel : List (ℕ × List ℕ) → Type 0
  NoLabel = All (λ (e : ℕ × List ℕ). is_label principal value e ≡ false)

  abbrev Within : ℕ → Option ℕ → Type 0
  Within off none = Unit
  Within off (some best) = distance principal off ≤ distance principal best

  -- The loop over some strings, from the best one so far to the result.
  abbrev From : List (ℕ × List ℕ) → Option ℕ → Option ℕ → Type 0
  From es best none = (best ≡ none) × NoLabel es
  From es best (some off) =
      ((best ≡ some off) ⊎ (has_label off es ≡ true)) × Within off best × NoneNearer off es

  closer-Within :
      (off : ℕ) (best : Option ℕ)
      → (distance principal (closer principal off best) ≤ distance principal off)
        × Within (closer principal off best) best
        × ((closer principal off best ≡ off) ⊎ (best ≡ some (closer principal off best)))
  unfolding closer
  closer-Within off none = (omega arith, tt, inl refl)
  closer-Within off (some best) =
      elim (Bool-cases (ltb (distance principal off) (distance principal best))) [
        | inl less ↦ rw less (omega arith, ground arith, inl refl)
        | inr more ↦ rw more (ground arith, omega arith, inr refl)
      ]

  Within-shorter :
      (a b : ℕ) (best : Option ℕ)
      → distance principal a ≤ distance principal b
      → Within b best
      → Within a best
  Within-shorter a b none l w = tt
  Within-shorter a b (some c) l w = omega arith

  or_right : (a b : Bool) → b ≡ true → (a || b) ≡ true
  or_right true b h = refl
  or_right false b h = h

  has_first :
      (e : ℕ × List ℕ) (es : List (ℕ × List ℕ)) (off : ℕ)
      → e.0 ≡ off
      → is_label principal value e ≡ true
      → has_label off (e ∷ es) ≡ true
  has_first e es off same hit = let t : (e.0 == off) ≡ true = ground arith in rw (t, hit)

  skip-From :
      (e : ℕ × List ℕ) (es : List (ℕ × List ℕ)) (best r : Option ℕ)
      → is_label principal value e ≡ false
      → From es best r
      → From (e ∷ es) best r
  skip-From e es best none miss f = (f.0, (miss, f.1))
  skip-From e es best (some off) miss (at, w, n) = (
    elim at [ inl b ↦ inl b | inr h ↦ inr (or_right _ _ h) ],
    w,
    ((λ hit. ground (arith, miss, hit)), n),
  )

  take-From :
      (e : ℕ × List ℕ) (es : List (ℕ × List ℕ)) (best r : Option ℕ)
      → is_label principal value e ≡ true
      → From es (some (closer principal e.0 best)) r
      → From (e ∷ es) best r
  take-From e es best none hit f = cc
  take-From e es best (some off) hit (at, w, n) =
      let (near, inside, which) = closer-Within e.0 best in
      (
        elim at [
          | inr h ↦ inr (or_right _ _ h)
          | inl b ↦ elim which [
            | inl here ↦ inr (has_first e es off (sym here ∙ some_injective b) hit)
            | inr old ↦ inl (old ∙ b)
          ]
        ],
        Within-shorter off (closer principal e.0 best) best w inside,
        ((λ l. omega arith), n),
      )

  nearest_from-From :
      (es : List (ℕ × List ℕ)) (best : Option ℕ)
      → From es best (nearest_from principal value es best)
  unfolding nearest_from
  nearest_from-From [] none = (refl, tt)
  nearest_from-From [] (some b) = (inl refl, omega arith, tt)
  nearest_from-From (e ∷ es) best = elim (Bool-cases (is_label principal value e)) [
    | inl hit ↦
        let best' = some (closer principal e.0 best) in
        let same : nearest_from principal value (e ∷ es) best
            ≡ nearest_from principal value es best' =
          rw hit in
        subst (From (e ∷ es) best) (sym same)
          (take-From e es best _ hit (nearest_from-From es best'))
    | inr miss ↦
        let same : nearest_from principal value (e ∷ es) best
            ≡ nearest_from principal value es best =
          rw miss in
        subst (From (e ∷ es) best) (sym same)
          (skip-From e es best _ miss (nearest_from-From es best))
  ]

  -- What findNearestLabel promises: nothing if there is no label, or else the offset of a label such
  -- that none is nearer.
  abbrev pub IsNearest : List (ℕ × List ℕ) → Option ℕ → Type 0
  IsNearest es none = NoLabel es
  IsNearest es (some off) = (has_label off es ≡ true) × NoneNearer off es

  From-IsNearest : (es : List (ℕ × List ℕ)) (r : Option ℕ) → From es none r → IsNearest es r
  From-IsNearest es none f = f.1
  From-IsNearest es (some off) (inl e, w, n) = cc
  From-IsNearest es (some off) (inr h, w, n) = (h, n)

  -- Of the strings of a window, findNearestLabel finds the offset of one that is the value, does not
  -- lie in the identity at the principal, and is as near to the principal as any other such string;
  -- it finds nothing only if there is none.
  pub find_nearest_label-IsNearest :
      (es : List (ℕ × List ℕ)) → IsNearest es (find_nearest_label es principal value)
  unfolding find_nearest_label
  find_nearest_label-IsNearest es = From-IsNearest es _ (nearest_from-From es none)
