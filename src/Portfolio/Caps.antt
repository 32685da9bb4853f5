-- ===== src/Portfolio/Caps.antt =====
-- The caps on the weights that Allocate gives.
use Prim.Native.Nat.{Ordering}
use opensqt_market_maker.Common.{
  ◌≡◌, refl, sym, ap, ap₂, subst, ◌∙◌, inl, inr, true, Bool-cases, List, [], ◌∷◌, arith, String,
  All, take, if◌then◌else◌,
}
use opensqt_market_maker.Common.Assoc.{lookup, insert, string_eq, lookup-insert}
use opensqt_market_maker.Num.{Num, less_eq, greater_than, is_positive, is_negative, is_zero}
use opensqt_market_maker.Num.Laws.{IsOrdered, IsGroup, IsOrderedGroup}
use opensqt_market_maker.Num.Group.{sub-add_cancel, zero-add}
use opensqt_market_maker.Portfolio.{
  Opportunity, TargetPosition, PortfolioAllocator, exposure, cap_pair, cap_sector, target_of,
  sector_of, allocate_from, allocate_sectors, total_score,
}

module _ (n : Num) where
  open n use {D, add, sub, cmp}

  -- The weights of a sector's targets.
  unfoldable pub sector_total : String → List (String × TargetPosition D) → D
  sector_total sector [] = n.zero
  sector_total sector ((k, t) ∷ targets) =
      let rest = sector_total sector targets in
      if string_eq.beq k sector then add t.weight rest else rest

  -- A target within the cap on a pair.
  abbrev pub IsCapped : PortfolioAllocator D → String × TargetPosition D → Type 0
  IsCapped a t = (is_positive n t.1.weight ≡ true) × (less_eq n t.1.weight a.max_weight ≡ true)

  module _ (o : IsOrdered n) (g : IsGroup n) (og : IsOrderedGroup n)
      (a : PortfolioAllocator D) where
    cap_pair-le : (w : D) → less_eq n (cap_pair n a w) a.max_weight ≡ true
    unfolding cap_pair
    cap_pair-le w = ground (arith, o.cmp_self a.max_weight)

    -- What is left of a sector is added to what it has.
    room_fills : (current : D) → add current (sub a.sector_cap current) ≡ a.sector_cap
    room_fills current =
        g.add_comm current (sub a.sector_cap current) ∙ sub-add_cancel n g a.sector_cap current

    -- If the weight does not fit, it is more than the room.
    room_less :
        (current w : D)
        → greater_than n (add current w) a.sector_cap ≡ true
        → cmp w (sub a.sector_cap current) ≡ Ordering.gt
    room_less current w h =
        let e : cmp (add w current) (add (sub a.sector_cap current) current)
            ≡ cmp w (sub a.sector_cap current) =
          og.cmp_add w (sub a.sector_cap current) current in
        let f : cmp (add w current) (add (sub a.sector_cap current) current)
            ≡ cmp (add current w) a.sector_cap =
          ap₂ cmp (g.add_comm w current) (sub-add_cancel n g a.sector_cap current) in
        let over : cmp (add current w) a.sector_cap ≡ Ordering.gt = ground arith in sym e ∙ f ∙ over

    cap_sector-room :
        (current w : D)
        → less_eq n current a.sector_cap ≡ true
        → less_eq n (add current (cap_sector n a current w)) a.sector_cap ≡ true
    unfolding cap_sector
    cap_sector-room current w h = elim (Bool-cases (greater_than n (add current w) a.sector_cap)) [
      | inr fits ↦ rw fits (ground arith)
      | inl over ↦ elim (Bool-cases (is_negative n (sub a.sector_cap current))) [
        | inl below ↦ rw (over, below) (rw (g.add_zero current) h)
        | inr room ↦
            rw (over, room) (rw (room_fills current) (ground (arith, o.cmp_self a.sector_cap)))
      ]
    ]

    -- What is below a weight within the cap is within the cap.
    less_eq_of_room :
        (r w c : D) → cmp w r ≡ Ordering.gt → less_eq n w c ≡ true → less_eq n r c ≡ true
    less_eq_of_room r w c h k =
        let lt = o.cmp_lt w r h in
        ground (arith, lt, o.cmp_trans r w c lt, o.cmp_eq w c, ap (cmp r), k)

    cap_sector-le :
        (current w : D)
        → less_eq n w a.max_weight ≡ true
        → is_positive n (cap_sector n a current w) ≡ true
        → less_eq n (cap_sector n a current w) a.max_weight ≡ true
    unfolding cap_sector
    cap_sector-le current w h p = elim (Bool-cases (greater_than n (add current w) a.sector_cap)) [
      | inr fits ↦ rw fits h
      | inl over ↦ elim (Bool-cases (is_negative n (sub a.sector_cap current))) [
        | inl below ↦ absurd (ground (arith, over, below, o.cmp_self n.zero))
        | inr room ↦
            rw (over, room)
              (less_eq_of_room (sub a.sector_cap current) w a.max_weight (room_less current w over)
                h)
      ]
    ]

    weight_of : D → D → Opportunity D → D
    weight_of total current x = cap_sector n a current (cap_pair n a (n.div x.quality_score total))

    allocate_from-IsCapped :
        (total capacity : D) (opps : List (Opportunity D)) (m : List (String × D))
        → All (IsCapped a) (allocate_from n a total capacity opps m)
    unfolding allocate_from target_of
    allocate_from-IsCapped total capacity [] m = tt
    allocate_from-IsCapped total capacity (x ∷ opps) m =
        let sector = sector_of n x in
        let current = exposure n sector m in
        let pair = cap_pair n a (n.div x.quality_score total) in
        let weight = cap_sector n a current pair in
        let skipped = allocate_from-IsCapped total capacity opps m in
        let taken =
          allocate_from-IsCapped total capacity opps (insert sector (add current weight) m) in
        elim (Bool-cases (is_positive n x.quality_score)) [
          | inr bad ↦ rw bad skipped
          | inl good ↦ elim (Bool-cases (is_positive n weight)) [
            | inr none_left ↦ rw (good, none_left) skipped
            | inl some_left ↦
                rw (good, some_left)
                  (
                    (
                      some_left,
                      cap_sector-le current pair (cap_pair-le (n.div x.quality_score total))
                          some_left,
                    ),
                    taken,
                  )
          ]
        ]

    -- No sector is above its cap.
    abbrev Fits : List (String × D) → Type 0
    Fits m = (s : String) → less_eq n (exposure n s m) a.sector_cap ≡ true

    exposure-insert :
        (k s : String) (d : D) (m : List (String × D))
        → exposure n s (insert k d m) ≡ (if string_eq.beq k s then d else exposure n s m)
    unfolding exposure
    exposure-insert k s d m = ground (arith, lookup-insert k s d m)

    -- A target that takes a sector to its cap at most leaves every sector within it.
    insert-Fits :
        (k : String) (d : D) (m : List (String × D))
        → less_eq n d a.sector_cap ≡ true
        → Fits m
        → Fits (insert k d m)
    insert-Fits k d m h f s = elim (Bool-cases (string_eq.beq k s)) [
      | inl same ↦
          let e : exposure n s (insert k d m) ≡ d = ground (arith, exposure-insert k s d m, same) in
          rw e h
      | inr other ↦
          let e : exposure n s (insert k d m) ≡ exposure n s m =
            ground (arith, exposure-insert k s d m, other) in
          rw e (f s)
    ]

    -- The exposure of a sector with the weights that are still given to it.
    abbrev planned : String → List (String × D) → List (String × TargetPosition D) → D
    planned s m targets = add (exposure n s m) (sector_total s targets)

    planned-cons :
        (k s : String) (t : TargetPosition D) (m : List (String × D))
        (targets : List (String × TargetPosition D))
        → planned s m ((k, t) ∷ targets)
          ≡ planned s (insert k (add (exposure n k m) t.weight) m) targets
    unfolding sector_total
    planned-cons k s t m targets =
        let after = add (exposure n k m) t.weight in
        let rest = sector_total s targets in
        elim (Bool-cases (string_eq.beq k s)) [
          | inl same ↦
              let total : sector_total s ((k, t) ∷ targets) ≡ add t.weight rest = rw same refl in
              let e : exposure n s (insert k after m) ≡ after =
                ground (arith, exposure-insert k s after m, same) in
              ap (add (exposure n s m)) total
              ∙ ap (λ x. add (exposure n x m) (add t.weight rest))
                  (sym ((string_eq.beq_iff k s).0 same))
              ∙ sym (g.add_assoc (exposure n k m) t.weight rest)
              ∙ ap (λ y. add y rest) (sym e)
          | inr other ↦
              let total : sector_total s ((k, t) ∷ targets) ≡ rest = rw other refl in
              let e : exposure n s (insert k after m) ≡ exposure n s m =
                ground (arith, exposure-insert k s after m, other) in
              ap (add (exposure n s m)) total ∙ ap (λ y. add y rest) (sym e)
        ]

    allocate_from-planned :
        (total capacity : D) (opps : List (Opportunity D)) (m : List (String × D)) (s : String)
        → Fits m
        → less_eq n (planned s m (allocate_from n a total capacity opps m)) a.sector_cap ≡ true
    unfolding allocate_from
    allocate_from-planned total capacity [] m s f =
        let e : planned s m [] ≡ exposure n s m =
          unfold sector_total in g.add_zero (exposure n s m) in
        subst (λ d. less_eq n d a.sector_cap ≡ true) (sym e) (f s)
    allocate_from-planned total capacity (x ∷ opps) m s f =
        let sector = sector_of n x in
        let current = exposure n sector m in
        let pair = cap_pair n a (n.div x.quality_score total) in
        let weight = cap_sector n a current pair in
        let m' = insert sector (add current weight) m in
        let skipped = allocate_from-planned total capacity opps m s f in
        let taken =
          allocate_from-planned total capacity opps m' s (
            insert-Fits sector (add current weight) m (cap_sector-room current pair (f sector))
              f) in
        elim (Bool-cases (is_positive n x.quality_score)) [
          | inr bad ↦ rw bad skipped
          | inl good ↦ elim (Bool-cases (is_positive n weight)) [
            | inr none_left ↦ rw (good, none_left) skipped
            | inl some_left ↦
                rw (good, some_left)
                  (rw
                    (planned-cons sector s (target_of n capacity x weight) m
                      (allocate_from n a total capacity opps m'))
                    taken)
          ]
        ]

    empty-Fits : less_eq n n.zero a.sector_cap ≡ true → Fits []
    unfolding exposure lookup
    empty-Fits h s = h

    -- If the cap on a sector is not negative, Allocate gives every target a positive weight within
    -- the cap on a pair, and to the targets of one sector together a weight within the cap on a
    -- sector, whatever the scores are.
    pub allocate-IsCapped :
        less_eq n n.zero a.sector_cap ≡ true
        → (opps : List (Opportunity D)) (total_equity leverage : D) (sector : String)
        → All (IsCapped a) (allocate_sectors n a opps total_equity leverage)
          × (less_eq n
                (sector_total sector (allocate_sectors n a opps total_equity leverage))
                a.sector_cap
              ≡ true)
    unfolding allocate_sectors
    allocate-IsCapped h opps total_equity leverage sector =
        let top = take a.max_pairs opps in
        let total = total_score n top n.zero in
        let capacity = n.mul total_equity leverage in
        let at_zero : planned sector [] (allocate_from n a total capacity top [])
            ≡ sector_total sector (allocate_from n a total capacity top []) =
          unfold exposure lookup in zero-add n g _ in
        elim (Bool-cases (is_zero n total)) [
          | inl nothing ↦ rw nothing (tt, unfold sector_total in h)
          | inr some_score ↦ rw some_score (
            allocate_from-IsCapped total capacity top [],
            subst (λ d. less_eq n d a.sector_cap ≡ true) at_zero
                (allocate_from-planned total capacity top [] sector (empty-Fits h)),
          )
        ]
