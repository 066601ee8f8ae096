-- ===== src/Housekeeping/Storage/Parts.antt =====
-- A stretch of a file that is written, or read, part by part.
use ex2_services.Base.{
  ℕ, zero, suc, ◌+◌, ◌-◌, ◌≤◌, ◌<◌, ◌≡◌, ◌∙◌, refl, sym, ap, ◌⊎◌, inl, inr, arith, true, ltb,
  Bool-cases, some, List, [], ◌∷◌, ◌++◌, map, get_or, length, length-append,
}
use ex2_services.Csp.Bytes.{Memory, put, put_get, put_outside, slice}
use ex2_services.Housekeeping.State.{RedFs}
use ex2_services.Housekeeping.Storage.Posix.{Posix}

get_or-front : (bs cs : List ℕ) (k : ℕ) → k < length bs → get_or (bs ++ cs) k 0 ≡ get_or bs k 0
get_or-front [] cs k h = absurd (omega arith)
get_or-front (b ∷ bs) cs zero h = refl
get_or-front (b ∷ bs) cs (suc k) h = get_or-front bs cs k (omega arith)

get_or-behind : (bs cs : List ℕ) (k : ℕ) → get_or (bs ++ cs) (length bs + k) 0 ≡ get_or cs k 0
get_or-behind [] cs k = ap (λ i. get_or cs i 0) (omega arith)
get_or-behind (b ∷ bs) cs k =
    let e : suc (length bs) + k ≡ suc (length bs + k) = omega arith in rw e (get_or-behind bs cs k)

meet : (k n : ℕ) → (k < n) ⊎ ((j : ℕ) × (k ≡ n + j))
meet k n = elim (Bool-cases (ltb k n)) [
  | inl below ↦ inl (ground arith)
  | inr above ↦ inr (k - n, ground arith)
]

-- The bytes stand in the memory from `p` on.
pub Holds : Memory → ℕ → List ℕ → Type 0
Holds m p bs = (k : ℕ) → k < length bs → m (p + k) ≡ get_or bs k 0

-- The memory `m'` is `m` with the bytes at `p`.
pub record Grew (m m' : Memory) (p : ℕ) (bs : List ℕ) : Type 0 where
  pub holds : Holds m' p bs
  pub apart : (i : ℕ) → (i < p) ⊎ (p + length bs ≤ i) → m' i ≡ m i

put-Grew : (m : Memory) (p : ℕ) (bs : List ℕ) → Grew m (put p bs m) p bs
unfolding Holds
put-Grew m p bs = record {
  holds = λ k h. put_get p bs m k h;
  apart = λ i h. put_outside p bs m i h;
}

Grew-append :
    (m m₁ m₂ : Memory) (p : ℕ) (bs cs : List ℕ)
    → Grew m m₁ p bs
    → Grew m₁ m₂ (p + length bs) cs
    → Grew m m₂ p (bs ++ cs)
unfolding Holds
Grew-append m m₁ m₂ p bs cs first second = record {
  holds = λ k h. elim (meet k (length bs)) [
    | inl front ↦
        second.apart (p + k) (inl (omega arith))
        ∙ first.holds k front
        ∙ sym (get_or-front bs cs k front)
    | inr (j, e) ↦
        let place : p + k ≡ p + length bs + j = omega (arith, e) in
        rw place (
          second.holds j (omega (arith, e, h, length-append bs cs))
          ∙ sym (get_or-behind bs cs j)
          ∙ ap (λ i. get_or (bs ++ cs) i 0) (sym e))
  ];
  apart = λ i h.
      second.apart i (ground (arith, length-append bs cs))
      ∙ first.apart i (ground (arith, length-append bs cs));
}

-- The first bytes of a stretch, and those behind them.
pub Holds-slice :
    (m : Memory) (p : ℕ) (bs cs : List ℕ) → Holds m p (bs ++ cs) → slice p (length bs) m ≡ bs
unfolding Holds
Holds-slice m p [] cs h = refl
Holds-slice m p (b ∷ bs) cs h =
    let first : m p ≡ b = ap m (omega arith) ∙ h 0 (omega arith) in
    let rest : Holds m (p + 1) (bs ++ cs) = λ k few. ap m (omega arith) ∙ h (suc k) (omega arith) in
    rw (first, Holds-slice m (p + 1) bs cs rest) refl

pub Holds-behind :
    (m : Memory) (p : ℕ) (bs cs : List ℕ) → Holds m p (bs ++ cs) → Holds m (p + length bs) cs
unfolding Holds
Holds-behind m p bs cs h k few =
    ap m (omega arith)
    ∙ h (length bs + k) (omega (arith, length-append bs cs))
    ∙ get_or-behind bs cs k

unfoldable pub joined : List (List ℕ) → List ℕ
joined [] = []
joined (part ∷ parts) = part ++ joined parts

module _ {W : Type 0} (fs : RedFs W) where
  -- Parts that are written, or read, one behind the other.
  unfoldable pub write_parts : ℕ → List (List ℕ) → W → W
  write_parts fd [] w = w
  write_parts fd (part ∷ parts) w = write_parts fd parts (fs.write_file fd part w)

  unfoldable pub read_parts : ℕ → List ℕ → W → List (List ℕ) × W
  read_parts fd [] w = ([], w)
  read_parts fd (n ∷ ns) w =
      let (bytes, w₁) = fs.read_file fd n w in
      let (rest, w₂) = read_parts fd ns w₁ in (bytes ∷ rest, w₂)

  module _ (posix : Posix fs) where
    pub record Wrote (w w' : W) (p : ℕ) (bs : List ℕ) : Type 0 where
      pub clean : fs.no_error w ≡ true
      pub grew : Grew (posix.contents w) (posix.contents w') p bs
      pub larger : posix.size w ≤ posix.size w'
      pub reaches : (length bs ≡ 0) ⊎ (p + length bs ≤ posix.size w')

    write_parts-no_error :
        (fd : ℕ) (parts : List (List ℕ)) (w : W)
        → fs.no_error (write_parts fd parts w) ≡ true
        → fs.no_error w ≡ true
    unfolding write_parts
    write_parts-no_error fd [] w good = good
    write_parts-no_error fd (part ∷ parts) w good =
        posix.write_no_error fd part w
          (write_parts-no_error fd parts (fs.write_file fd part w) good)

    -- Each write of these parts, one behind the other, reports all its bytes.
    unfoldable pub NoneShort : ℕ → List (List ℕ) → W → Type 0
    NoneShort fd [] w = Unit {0}
    NoneShort fd (part ∷ parts) w =
        (posix.written fd part w ≡ length part) × NoneShort fd parts (fs.write_file fd part w)

    pub write_parts-Wrote :
        (fd p : ℕ) (parts : List (List ℕ)) (w : W)
        → posix.position w fd ≡ some p
        → NoneShort fd parts w
        → fs.no_error (write_parts fd parts w) ≡ true
        → Wrote w (write_parts fd parts w) p (joined parts)
    unfolding write_parts joined Holds NoneShort
    write_parts-Wrote fd p [] w at long good = record {
      clean = good;
      grew = record { holds = λ k h. absurd (omega arith); apart = λ i h. refl };
      larger = omega arith;
      reaches = inl refl;
    }
    write_parts-Wrote fd p (part ∷ parts) w at (whole, later) good =
        let w₁ : W = fs.write_file fd part w in
        let errors = write_parts-no_error fd parts w₁ good in
        let (put_there, at₁, larger₁, reaches₁) =
          posix.write_contents fd p part w at errors whole in
        let rest = write_parts-Wrote fd (p + length part) parts w₁ at₁ later good in
        let long = length-append part (joined parts) in
        record {
          clean = posix.write_no_error fd part w errors;
          grew =
              Grew-append _ (posix.contents w₁) _ p part (joined parts)
                (rw put_there (put-Grew _ p part)) rest.grew;
          larger = omega (arith, larger₁, rest.larger);
          reaches = inr (ground (arith, long, reaches₁, rest.larger, rest.reaches));
        }

    read_parts_no_error :
        (fd : ℕ) (ns : List ℕ) (w : W)
        → fs.no_error (read_parts fd ns w).1 ≡ true
        → fs.no_error w ≡ true
    unfolding read_parts
    read_parts_no_error fd [] w good = good
    read_parts_no_error fd (n ∷ ns) w good =
        posix.read_no_error fd n w (read_parts_no_error fd ns (fs.read_file fd n w).1 good)

    -- Parts that stand in the file are read back.
    pub read_parts_back :
        (fd p : ℕ) (parts : List (List ℕ)) (w : W)
        → posix.position w fd ≡ some p
        → Holds (posix.contents w) p (joined parts)
        → p + length (joined parts) ≤ posix.size w
        → fs.no_error (read_parts fd (map length parts) w).1 ≡ true
        → (read_parts fd (map length parts) w).0 ≡ parts
    unfolding read_parts joined
    read_parts_back fd p [] w at held inside good = refl
    read_parts_back fd p (part ∷ parts) w at held inside good =
        let (bytes, w₁) = fs.read_file fd (length part) w in
        let rest = read_parts_no_error fd (map length parts) w₁ good in
        let (got, at₁, same, as_large) =
          posix.read_contents fd (length part) p w at
            (omega (arith, length-append part (joined parts))) rest in
        let later =
          read_parts_back fd (p + length part) parts w₁ at₁
            (rw same (Holds-behind _ p part (joined parts) held))
            (rw as_large (omega (arith, length-append part (joined parts)))) good in
        let first : bytes ≡ part = got ∙ Holds-slice _ p part (joined parts) held in
        rw (first, later) refl
