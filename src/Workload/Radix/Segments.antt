-- ===== src/Workload/Radix/Segments.antt =====
-- The scratch vector of a radix pass as a row of segments, one for each digit: what is written, and
-- the room that is left.
use mathlib.Core.List.{append-nil, append_assoc}
use mathlib.Core.Path.{ap₂}
use rapidbench.Prelude.{
  ℕ, zero, suc, ◌+◌, ◌-◌, ◌≤◌, ◌<◌, ◌≡◌, refl, sym, ap, ◌∙◌, List, [], ◌∷◌, ◌++◌, arith, length,
  length-append, get_or, set, drop, length-drop,
}
use rapidbench.Workload.Radix.{digit, scatter}
use rapidbench.Workload.Radix.Tally.{bucket, bucket-hit, bucket-before, bucket-after}

pub record Segment : Type 0 where
  pub written : List ℕ
  pub room : List ℕ

abbrev pub flat : List Segment → List ℕ
flat [] = []
flat (s ∷ ss) = s.written ++ (s.room ++ flat ss)

-- Where the next value of each digit goes.
abbrev pub starts : ℕ → List Segment → List ℕ
starts o [] = []
starts o (s ∷ ss) = (o + length s.written) ∷ starts (o + length s.written + length s.room) ss

abbrev advance : ℕ → Segment → Segment
advance v s = record { written = s.written ++ (v ∷ []); room = drop 1 s.room }

abbrev put : ℕ → ℕ → List Segment → List Segment
put d v [] = []
put zero v (s ∷ ss) = advance v s ∷ ss
put (suc d) v (s ∷ ss) = s ∷ put d v ss

-- The segment of a digit has room.
abbrev HasRoom : ℕ → List Segment → Type 0
HasRoom d [] = ⊥
HasRoom zero (s ∷ ss) = 0 < length s.room
HasRoom (suc d) (s ∷ ss) = HasRoom d ss

set-append :
    (front rest : List ℕ) (i n v : ℕ)
    → n ≡ length front + i
    → set (front ++ rest) n v ≡ front ++ set rest i v
set-append [] rest i n v e = let same : n ≡ i = omega arith in ap (λ k. set rest k v) same
set-append (x ∷ front) rest i zero v e = absurd (omega arith)
set-append (x ∷ front) rest i (suc n) v e = ap (◌∷◌ x) (set-append front rest i n v (omega arith))

-- A place in front of the segments is not theirs.
start-le : (o d : ℕ) (ss : List Segment) → HasRoom d ss → o ≤ get_or (starts o ss) d 0
start-le o d [] h = absurd h
start-le o zero (s ∷ ss) h = omega arith
start-le o (suc d) (s ∷ ss) h =
    omega (arith, start-le (o + length s.written + length s.room) d ss h)

flat-put :
    (o d v : ℕ) (ss : List Segment)
    → HasRoom d ss
    → set (flat ss) (get_or (starts o ss) d 0 - o) v ≡ flat (put d v ss)
flat-put o d v [] h = absurd h
flat-put o zero v (s ∷ ss) h = first s.written s.room refl refl h
  where
    first :
        (w r : List ℕ)
        → s.written ≡ w
        → s.room ≡ r
        → 0 < length s.room
        → set (s.written ++ (s.room ++ flat ss)) (o + length s.written - o) v
          ≡ (s.written ++ (v ∷ [])) ++ (drop 1 s.room ++ flat ss)
    first w [] p q b = absurd (omega (arith, ap length q))
    first w (c ∷ r) p q b = rw q (
        set-append s.written (c ∷ (r ++ flat ss)) 0 (o + length s.written - o) v (omega arith)
        ∙ sym (append_assoc s.written (v ∷ []) (r ++ flat ss)))
flat-put o (suc d) v (s ∷ ss) h =
    let next = o + length s.written + length s.room in
    let at = get_or (starts next ss) d 0 in
    set-append s.written (s.room ++ flat ss) (length s.room + (at - next)) (at - o) v
      (omega (arith, start-le next d ss h))
    ∙ ap (◌++◌ s.written) (
        set-append s.room (flat ss) (at - next) (length s.room + (at - next)) v refl
        ∙ ap (◌++◌ s.room) (flat-put next d v ss h))

starts-put :
    (o d v : ℕ) (ss : List Segment)
    → HasRoom d ss
    → set (starts o ss) d (get_or (starts o ss) d 0 + 1) ≡ starts o (put d v ss)
starts-put o d v [] h = absurd h
starts-put o zero v (s ∷ ss) h =
    let size = length-append s.written (v ∷ []) in
    let left = length-drop 1 s.room in
    let moved : o + length s.written + 1 ≡ o + length (s.written ++ (v ∷ [])) =
      omega (arith, size) in
    let kept : o + length s.written + length s.room
        ≡ o + length (s.written ++ (v ∷ [])) + length (drop 1 s.room) =
      omega (arith, size, left) in
    ap₂ ◌∷◌ moved (ap (λ k. starts k ss) kept)
starts-put o (suc d) v (s ∷ ss) h =
    ap (◌∷◌ (o + length s.written)) (starts-put (o + length s.written + length s.room) d v ss h)

-- A segment with more values written.
abbrev pub extend : Segment → List ℕ → Segment
extend s b = record { written = s.written ++ b; room = drop (length b) s.room }

module _ (shift : ℕ) where
  -- What the segments become when the values are written, the first being that of digit k.
  abbrev pub fill : ℕ → List ℕ → List Segment → List Segment
  fill k vs [] = []
  fill k vs (s ∷ ss) = extend s (bucket shift k vs) ∷ fill (k + 1) vs ss

  -- The segments have just the room that the values need.
  abbrev pub Fits : ℕ → List ℕ → List Segment → Type 0
  Fits k vs [] = Unit {0}
  Fits k vs (s ∷ ss) = (length s.room ≡ length (bucket shift k vs)) × Fits (k + 1) vs ss

  Fits-other :
      (k v : ℕ) (vs : List ℕ) (ss : List Segment)
      → digit shift v < k
      → Fits k (v ∷ vs) ss
      → Fits k vs ss
  Fits-other k v vs [] h f = tt
  Fits-other k v vs (s ∷ ss) h f =
      (f.0 ∙ ap length (bucket-before shift k v vs h), Fits-other (k + 1) v vs ss (omega arith) f.1)

  Fits-put :
      (k d v : ℕ) (vs : List ℕ) (ss : List Segment)
      → digit shift v ≡ k + d
      → d < length ss
      → Fits k (v ∷ vs) ss
      → HasRoom d ss × Fits k vs (put d v ss)
  Fits-put k d v vs [] e h f = absurd (omega arith)
  Fits-put k zero v vs (s ∷ ss) e h f =
      let hit = f.0 ∙ ap length (bucket-hit shift k v vs (omega arith)) in
      (
        omega arith,
        (omega (arith, length-drop 1 s.room), Fits-other (k + 1) v vs ss (omega arith) f.1),
      )
  Fits-put k (suc d) v vs (s ∷ ss) e h f =
      let (room, rest) = Fits-put (k + 1) d v vs ss (omega arith) (omega arith) f.1 in
      (room, (f.0 ∙ ap length (bucket-after shift k v vs (omega arith)), rest))

  length-put : (d v : ℕ) (ss : List Segment) → length (put d v ss) ≡ length ss
  length-put d v [] = refl
  length-put zero v (s ∷ ss) = refl
  length-put (suc d) v (s ∷ ss) = ap suc (length-put d v ss)

  drop-drop : (n : ℕ) (xs : List ℕ) → drop n (drop 1 xs) ≡ drop (suc n) xs
  drop-drop zero [] = refl
  drop-drop (suc n) [] = refl
  drop-drop n (x ∷ xs) = refl

  fill-other :
      (k v : ℕ) (vs : List ℕ) (ss : List Segment)
      → digit shift v < k
      → fill k vs ss ≡ fill k (v ∷ vs) ss
  fill-other k v vs [] h = refl
  fill-other k v vs (s ∷ ss) h =
      ap₂ ◌∷◌ (ap (extend s) (sym (bucket-before shift k v vs h)))
        (fill-other (k + 1) v vs ss (omega arith))

  extend-advance : (s : Segment) (v : ℕ) (b : List ℕ) → extend (advance v s) b ≡ extend s (v ∷ b)
  extend-advance s v b =
      ap₂ (λ w r. let seg : Segment = record { written = w; room = r } in seg)
        (append_assoc s.written (v ∷ []) b) (drop-drop (length b) s.room)

  extend-nil : (s : Segment) → extend s [] ≡ s
  extend-nil s =
      ap (λ w. let seg : Segment = record { written = w; room = s.room } in seg)
        (append-nil s.written)

  fill-nil : (k : ℕ) (ss : List Segment) → fill k [] ss ≡ ss
  fill-nil k [] = refl
  fill-nil k (s ∷ ss) = ap₂ ◌∷◌ (extend-nil s) (fill-nil (k + 1) ss)

  fill-put :
      (k d v : ℕ) (vs : List ℕ) (ss : List Segment)
      → digit shift v ≡ k + d
      → fill k vs (put d v ss) ≡ fill k (v ∷ vs) ss
  fill-put k d v vs [] e = refl
  fill-put k zero v vs (s ∷ ss) e =
      ap₂ ◌∷◌
        (extend-advance s v (bucket shift k vs)
          ∙ ap (extend s) (sym (bucket-hit shift k v vs (omega arith))))
        (fill-other (k + 1) v vs ss (omega arith))
  fill-put k (suc d) v vs (s ∷ ss) e =
      ap₂ ◌∷◌ (ap (extend s) (sym (bucket-after shift k v vs (omega arith))))
        (fill-put (k + 1) d v vs ss (omega arith))

  -- The scatter loop fills the segments.
  pub scatter-fill :
      (vs : List ℕ) (ss : List Segment)
      → Fits 0 vs ss
      → length ss ≡ 256
      → scatter shift vs (starts 0 ss) (flat ss) ≡ flat (fill 0 vs ss)
  unfolding scatter
  scatter-fill [] ss f l = ap flat (sym (fill-nil 0 ss))
  scatter-fill (v ∷ vs) ss f l =
      let d = digit shift v in
      let below : d < length ss = omega arith in
      let (room, rest) = Fits-put 0 d v vs ss (omega arith) below f in
      let at : get_or (starts 0 ss) d 0 - 0 ≡ get_or (starts 0 ss) d 0 = omega arith in
      ap₂ (scatter shift vs) (starts-put 0 d v ss room)
        (ap (λ n. set (flat ss) n v) (sym at) ∙ flat-put 0 d v ss room)
      ∙ scatter-fill vs (put d v ss) rest (length-put d v ss ∙ l)
      ∙ ap flat (fill-put 0 d v vs ss (omega arith))
