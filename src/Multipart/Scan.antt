-- ===== src/Multipart/Scan.antt =====
-- The value of a part, up to the first boundary behind it.
use fcgi_cpp_appserver.Common.{
  ℕ, zero, suc, ◌+◌, ◌-◌, ◌≤◌, ◌<◌, ◌≡◌, refl, sym, ap, ◌≢◌, true, false, [], ◌∷◌, ◌++◌,
  append_assoc, append-nil, arith, ltb, ◌==◌, length, Bool-cases, ◌⊎◌, inl, inr, take, drop, get_or,
  take_all, slice_suc, drop-cons, ==_iff,
}
use fcgi_cpp_appserver.Common.Bytes.{Bytes, member, contains, contains-append, contains-prefix}
use fcgi_cpp_appserver.Common.Dict.{Dict, insert}
use fcgi_cpp_appserver.Multipart.{Parser, next}
use fcgi_cpp_appserver.Multipart.Feeds.{feed, feeds}
use fcgi_cpp_appserver.Multipart.Values.{
  bare, full, Reading, AtBoundary, after_match, read_match, read_end, read_plain, read_newline,
  restarted-Reading, read_mismatch,
}

get_or-member : (d c : ℕ) (s : Bytes) (k : ℕ) → member d s ≡ false → k < length s → get_or s k c ≢ d
get_or-member d c [] k h l = absurd (omega arith)
get_or-member d c (x ∷ s) zero h l = ground arith
get_or-member d c (x ∷ s) (suc k) h l = get_or-member d c s k (ground arith) (omega arith)

-- The boundary has its CR in front only.
cr_only :
    (b : Bytes) (k : ℕ)
    → member b'\r' b ≡ false
    → 0 < k
    → k < length (full b)
    → get_or (full b) k 0 ≢ b'\r'
cr_only b zero h p l = absurd (omega arith)
cr_only b (suc k) h p l = get_or-member b'\r' 0 (bare b) k (ground arith) (omega arith)

module _ (b name : Bytes) (m : Dict Bytes) (size max : ℕ) (no_cr : member b'\r' b ≡ false)
    (low : (k : ℕ) → get_or (full b) k 0 < 128) where
  abbrev R : Bytes → ℕ → ℕ → Parser → Type 0
  R = Reading b name m size max

  -- The matched part of the boundary.
  abbrev held : ℕ → ℕ → Bytes
  held s k = take (k - s) (drop s (full b))

  -- The bytes `t` end the part with the value `w`.
  abbrev Ends : Bytes → Bytes → Parser → Type 0
  Ends w t p =
      (q : Parser) × ((rest : Bytes) → feeds p (t ++ rest) ≡ feeds q rest)
      × AtBoundary b (insert name (take size w) m) size max q

  Ends-next :
      (w : Bytes) (c : ℕ) (t : Bytes) (p q : Parser)
      → feed p c ≡ next q
      → Ends w t q
      → Ends w (c ∷ t) p
  Ends-next w c t p q e (r, f, a) = (r, λ rest. rw (e, feeds) (f rest), a)

  Ends-same :
      (w : Bytes) (c : ℕ) (t : Bytes) (p q : Parser)
      → feed p c ≡ feed q c
      → Ends w (c ∷ t) q
      → Ends w (c ∷ t) p
  Ends-same w c t p q e (r, f, a) = (r, λ rest. ground (arith, f rest), a)

  match_all :
      (t : Bytes) (w : Bytes) (k : ℕ) (p : Parser)
      → R w 0 k p
      → drop k (full b) ≡ t
      → t ≢ []
      → Ends w t p
  match_all [] w k p r e ne = absurd (ne refl)
  match_all (c ∷ []) w k p r e ne =
      let (g, d, l) = drop-cons k (full b) c [] 0 e in
      let (f, a) =
        read_end b name m size max w k c p r (sym g) (omega (arith, low k, g)) (omega arith) in
      (after_match b name m size max p, λ rest. rw (f, feeds), a)
  match_all (c ∷ x ∷ t) w k p r e ne =
      let (g, d, l) = drop-cons k (full b) c (x ∷ t) 0 e in
      let (f, r') =
        read_match b name m size max w 0 k c p r (sym g) (omega (arith, low k, g)) (omega arith) in
      Ends-next w c (x ∷ t) p _ f (match_all (x ∷ t) w (k + 1) _ r' d (λ h. cc))

  -- Where the boundary pointers may stand.
  abbrev Valid : ℕ → ℕ → Type 0
  Valid s k = (k < length (full b)) × (s ≤ 1) × ((s ≡ 0) ⊎ (2 ≤ k))

  abbrev Scan : Bytes → Type 0
  Scan v =
      (w : Bytes) (s k : ℕ) (p : Parser)
      → R w s k p
      → Valid s k
      → contains (bare b) (held s k ++ v) ≡ false
      → Ends (w ++ (held s k ++ v)) (v ++ full b) p

  -- From where no match is begun.
  ordinary_bytes :
      (c : ℕ) (v w : Bytes) (p : Parser)
      → Scan v
      → R w 0 0 p
      → contains (bare b) (c ∷ v) ≡ false
      → Ends (w ++ c ∷ v) (c ∷ (v ++ full b)) p
  ordinary_bytes c v w p ih r h = elim (Bool-cases (c == b'\r')) [
    | inl e ↦
        let e' : c ≡ b'\r' = (==_iff c b'\r').0 e in
        let (f, r') =
          read_match b name m size max w 0 0 c p r e' (omega (arith, e')) (omega arith) in
        rw (ap (λ (x : ℕ). w ++ x ∷ v) e')
          (Ends-next _ c (v ++ full b) p _ f (ih w 0 1 _ r' (omega arith) (rw e' at h)))
    | inr e ↦ elim (Bool-cases (c == b'\n')) [
      | inl f ↦
          let f' : c ≡ b'\n' = (==_iff c b'\n').0 f in
          let (q, g, r') = read_newline b name m size max w p r in
          rw f' (Ends-next _ b'\n' (v ++ full b) p q g (ih w 1 2 q r' (omega arith) (rw f' at h)))
      | inr f ↦
          let (g, r') = read_plain b name m size max w c p r (ground arith) (ground arith) in
          let k : contains (bare b) v ≡ false = contains-append (bare b) (c ∷ []) v h in
          Ends-next (w ++ c ∷ v) c (v ++ full b) p _ g
            (rw (← append_assoc w (c ∷ []) v) (ih (w ++ c ∷ []) 0 0 _ r' (omega arith) k))
    ]
  ]

  held_suc :
      (s k c : ℕ) (v : Bytes)
      → Valid s k
      → s ≤ k
      → c ≡ get_or (full b) k 0
      → held s (k + 1) ++ v ≡ held s k ++ c ∷ v
  held_suc s k c v ok le e =
      rw (slice_suc s k (full b) 0 le ok.0, ← e) (append_assoc (held s k) (c ∷ []) v)

  -- A match that comes to its end has put the boundary behind a line end.
  held-full :
      (s k : ℕ) (v : Bytes) → s ≤ 1 → length (full b) ≤ k → contains (bare b) (held s k ++ v) ≡ true
  held-full zero k v h l =
      rw (take_all (k - 0) (full b) (omega arith)) (ground (arith, contains-prefix (bare b) v))
  held-full (suc zero) k v h l =
      rw (take_all (k - 1) (bare b) (omega arith)) (contains-prefix (bare b) v)
  held-full (suc (suc s)) k v h l = absurd (omega arith)

  scan : (v : Bytes) → Scan v
  scan [] w zero zero p r ok h = rw append-nil (match_all (full b) w 0 p r refl (λ e. cc))
  scan [] w (suc s) zero p r ok h = absurd (omega arith)
  scan [] w s (suc k) p r ok h =
      let stop =
        read_mismatch b name m size max w s (suc k) b'\r' p r (omega arith)
          (λ e. cr_only b (suc k) no_cr (omega arith) ok.0 (sym e)) in
      rw append-nil (
        Ends-same _ b'\r' (bare b) p _ stop (
          match_all (full b) _ 0 _ (restarted-Reading b name m size max w s (suc k) p r) refl
            (λ e. cc)))
  scan (c ∷ v) w zero zero p r ok h = ordinary_bytes c v w p (scan v) r h
  scan (c ∷ v) w (suc s) zero p r ok h = absurd (omega arith)
  scan (c ∷ v) w s (suc k) p r ok h = elim (Bool-cases (c == get_or (full b) (suc k) 0)) [
    | inl e ↦
        let e' = (==_iff c _).0 e in
        let grown = held_suc s (suc k) c v ok (omega arith) e' in
        elim (Bool-cases (ltb (suc k + 1) (length (full b)))) [
          | inl more ↦
              let (f, r') =
                read_match b name m size max w s (suc k) c p r e' (omega (arith, e', low (suc k)))
                  (ground arith) in
              Ends-next _ c (v ++ full b) p _ f (
                rw (← grown)
                  (scan v w s (suc k + 1) _ r' (ground arith, ok.1, ground arith) (rw grown h)))
          | inr over ↦ absurd (cc (held-full s (suc k + 1) v ok.1 (ground arith), grown))
        ]
    | inr e ↦
        let stop =
          read_mismatch b name m size max w s (suc k) c p r (omega arith)
            (λ x. cc ((==_iff c _).1 x)) in
        Ends-same _ c (v ++ full b) p _ stop (
          rw (← append_assoc w (held s (suc k)) (c ∷ v)) (
            ordinary_bytes c v _ _ (scan v) (restarted-Reading b name m size max w s (suc k) p r)
              (contains-append (bare b) (held s (suc k)) (c ∷ v) h)))
  ]

  -- A value that holds no "\n--" with the boundary's name behind it is read to its end, whatever else
  -- it holds, and stored cut to the size of the output buffer.
  pub scan_value :
      (v rest : Bytes) (p : Parser)
      → R [] 0 0 p
      → contains (bare b) v ≡ false
      → (q : Parser) × (feeds p (v ++ full b ++ rest) ≡ feeds q rest)
        × AtBoundary b (insert name (take size v) m) size max q
  scan_value v rest p r h = let (q, f, a) = scan v [] 0 0 p r (omega arith) h in (q, f rest, a)
