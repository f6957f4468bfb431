-- ===== src/Sha256/Final.antt =====
-- `sha256_final`: the padding in the buffer is the padding of the message.
use mathlib.Core.List.{append_assoc, append-nil}
use fapolicyd_analyzer.Base.{
  ℕ, zero, suc, ◌+◌, ◌-◌, ◌*◌, ◌%◌, ◌^◌, ◌≤◌, ◌<◌, ◌≡◌, refl, sym, ap, ◌∙◌, inl, inr, true, false,
  ltb, Bool-cases, List, [], ◌∷◌, ◌++◌, length, length-append, length-replicate, replicate, ok,
  arith,
}
use fapolicyd_analyzer.Sha256.{Context, first_state, write, big_endian, pad, output, final}
use fapolicyd_analyzer.Sha256.Transform.{transform}
use fapolicyd_analyzer.Sha256.Padding.{write-middle, length-big_endian, split}
use fapolicyd_analyzer.Sha256.Blocks.{
  joined, chain, padding, joined-append, chain-append, AllBlocks-append, length-joined, IsDigest,
  joined-one, joined-two,
}
use fapolicyd_analyzer.Sha256.Streaming.{Took}

-- the mark behind the message, and zeros
abbrev marked : ℕ → List ℕ
marked n = 0x80 ∷ replicate n 0

length-marked : (n : ℕ) → length (marked n) ≡ suc n
length-marked n = ap suc (length-replicate {A = ℕ} n 0)

module _ {ctx : Context} {blocks : List (List ℕ)} {rest : List ℕ}
    (took : Took ctx blocks rest) where
  abbrev message : List ℕ
  message = joined blocks ++ rest

  abbrev total : List ℕ
  total = big_endian 8 ((ctx.bitlen + ctx.datalen * 8 % 2 ^ 32) % 2 ^ 64)

  length-message : length message ≡ 64 * length blocks + length rest
  length-message = omega (arith, length-append (joined blocks) rest, length-joined blocks took.good)

  total-bits : (ctx.bitlen + ctx.datalen * 8 % 2 ^ 32) % 2 ^ 64 ≡ length message * 8 % 2 ^ 64
  total-bits = omega (arith, took.bits, took.waiting, took.short, length-message)

  -- the length fits behind what waits
  final-one :
      length rest < 56 → (digest : List ℕ) × (final ctx ≡ ok digest) × IsDigest message digest
  unfolding final pad
  final-one h =
      let s = split took.stale (56 - length rest) (omega (arith, took.width)) in
      let zeros : List ℕ = marked (55 - ctx.datalen) in
      let fits : length zeros ≡ 56 - length rest =
        omega (arith, length-marked (55 - ctx.datalen), took.waiting) in
      let back : length s.back ≡ 8 =
        omega (arith, ap length s.joined, length-append s.front s.back, s.width, took.width) in
      let small : ltb ctx.datalen 56 ≡ true = ground (arith, took.waiting) in
      let first : write ctx.buffer ctx.datalen zeros ≡ ok (rest ++ (zeros ++ s.back)) =
        ap (λ b. write b ctx.datalen zeros) (took.buffered ∙ ap (λ t. rest ++ t) (sym s.joined))
        ∙ write-middle zeros rest s.front s.back ctx.datalen took.waiting (s.width ∙ sym fits) in
      let second : write (rest ++ (zeros ++ s.back)) 56 total ≡ ok (rest ++ (zeros ++ total)) =
        ap (λ b. write b 56 total)
          (let regroup : rest ++ (zeros ++ s.back) ≡ (rest ++ zeros) ++ (s.back ++ []) =
              simp (append_assoc, append-nil) in
            regroup)
        ∙ write-middle total (rest ++ zeros) s.back [] 56
            (omega (arith, length-append rest zeros, fits)) (back ∙ sym (length-big_endian 8 _))
        ∙ ap ok (
            let regroup : (rest ++ zeros) ++ (total ++ []) ≡ rest ++ (zeros ++ total) =
              simp (append_assoc, append-nil) in
            regroup) in
      let block : List ℕ = rest ++ (zeros ++ total) in
      let same_zeros : (119 - length message % 64) % 64 ≡ 55 - ctx.datalen =
        omega (arith, length-message, took.waiting) in
      (
        output (transform ctx.state block),
        rw (small, first, second) refl,
        record {
          blocks = blocks ++ block ∷ [];
          good = AllBlocks-append blocks (block ∷ []) took.good (
              (
                omega (
                  arith,
                  length-append rest (zeros ++ total),
                  length-append zeros total,
                  length-big_endian 8 ((ctx.bitlen + ctx.datalen * 8 % 2 ^ 32) % 2 ^ 64),
                  fits,
                ),
                tt,
              ));
          padded =
              joined-one blocks block
              ∙ sym (append_assoc (joined blocks) rest (zeros ++ total))
              ∙ ap (λ t. message ++ t) (unfold padding in rw (same_zeros, sym total-bits) refl);
          digests =
              ap (λ t. output (transform t block)) took.state
              ∙ ap output
                  (sym (chain-append first_state blocks (block ∷ []) ∙ unfold chain in refl));
        },
      )

  replicate-append : (m n : ℕ) (x : ℕ) → replicate (m + n) x ≡ replicate m x ++ replicate n x
  replicate-append zero n x = ap (λ (k : ℕ). replicate k x) (omega arith)
  replicate-append (suc m) n x =
      let e : suc m + n ≡ suc (m + n) = omega arith in
      rw e (ap (λ t. x ∷ t) (replicate-append m n x))

  -- the length goes into a block of its own
  final-two :
      56 ≤ length rest → (digest : List ℕ) × (final ctx ≡ ok digest) × IsDigest message digest
  unfolding final pad
  final-two h =
      let zeros : List ℕ = marked (63 - ctx.datalen) in
      let fits : length zeros ≡ 64 - length rest =
        omega (arith, length-marked (63 - ctx.datalen), took.waiting, took.short) in
      let large : ltb ctx.datalen 56 ≡ false = ground (arith, took.waiting) in
      let block : List ℕ = rest ++ zeros in
      let width : length block ≡ 64 = omega (arith, length-append rest zeros, fits, took.short) in
      let first : write ctx.buffer ctx.datalen zeros ≡ ok block =
        ap (λ b. write b ctx.datalen zeros)
          (took.buffered ∙ ap (λ t. rest ++ t) (sym (append-nil took.stale)))
        ∙ write-middle zeros rest took.stale [] ctx.datalen took.waiting
            (omega (arith, took.width, fits))
        ∙ ap (λ t. ok (rest ++ t)) (append-nil zeros) in
      let s = split block 56 (omega (arith, width)) in
      let back : length s.back ≡ 8 =
        omega (arith, ap length s.joined, length-append s.front s.back, s.width, width) in
      let cleared : write block 0 (replicate 56 0) ≡ ok (replicate 56 0 ++ s.back) =
        ap (λ b. write b 0 (replicate 56 0)) (sym s.joined)
        ∙ write-middle (replicate 56 0) [] s.front s.back 0 refl s.width in
      let last : List ℕ = replicate 56 0 ++ total in
      let second : write (replicate 56 0 ++ s.back) 56 total ≡ ok last =
        ap (λ b. write (replicate 56 0 ++ b) 56 total) (sym (append-nil s.back))
        ∙ write-middle total (replicate 56 0) s.back [] 56 refl (back ∙ sym (length-big_endian 8 _))
        ∙ ap (λ t. ok (replicate 56 0 ++ t)) (append-nil total) in
      let same_zeros : (119 - length message % 64) % 64 ≡ (63 - ctx.datalen) + 56 =
        omega (arith, length-message, took.waiting, took.short) in
      let pads : zeros ++ last ≡ padding (length message) =
        unfold padding in
        rw (same_zeros, sym total-bits, replicate-append (63 - ctx.datalen) 56 0)
          (ap (λ t. 0x80 ∷ t)
            (sym (append_assoc (replicate (63 - ctx.datalen) 0) (replicate 56 0) total))) in
      (
        output (transform (transform ctx.state block) last),
        rw (large, first, cleared, second) refl,
        record {
          blocks = blocks ++ block ∷ last ∷ [];
          good = AllBlocks-append blocks (block ∷ last ∷ []) took.good (
              (
                width,
                (
                  omega (
                    arith,
                    length-append (replicate 56 0) total,
                    length-big_endian 8 ((ctx.bitlen + ctx.datalen * 8 % 2 ^ 32) % 2 ^ 64),
                  ),
                  tt,
                ),
              ));
          padded =
              joined-append blocks (block ∷ last ∷ [])
              ∙ ap (λ t. joined blocks ++ t) (joined-two block last ∙ append_assoc rest zeros last)
              ∙ sym (append_assoc (joined blocks) rest (zeros ++ last))
              ∙ ap (λ t. message ++ t) pads;
          digests =
              ap (λ t. output (transform (transform t block) last)) took.state
              ∙ ap output (
                  sym (chain-append first_state blocks (block ∷ last ∷ []) ∙ unfold chain in refl));
        },
      )

  pub final-IsDigest : (digest : List ℕ) × (final ctx ≡ ok digest) × IsDigest message digest
  final-IsDigest = elim (Bool-cases (ltb (length rest) 56)) [
    | inl h ↦ final-one (ground arith)
    | inr h ↦ final-two (ground arith)
  ]
