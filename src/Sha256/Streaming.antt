-- ===== src/Sha256/Streaming.antt =====
-- `sha256_update`: the context after the bytes of a message, in whatever pieces they come.
use mathlib.Core.List.{append_assoc, append-nil}
use mathlib.Core.Path.{subst}
use fapolicyd_analyzer.Base.{
  ℕ, ◌+◌, ◌*◌, ◌%◌, ◌^◌, ◌<◌, ◌≡◌, refl, sym, ap, ◌∙◌, true, false, ◌==◌, List, [], ◌∷◌, ◌++◌,
  length, length-append, ok, arith,
}
use fapolicyd_analyzer.Sha256.{Context, first_state, put, update_byte, update, update_all}
use fapolicyd_analyzer.Sha256.Transform.{transform}
use fapolicyd_analyzer.Sha256.Padding.{put-middle}
use fapolicyd_analyzer.Sha256.Blocks.{
  joined, AllBlocks, chain, joined-append, chain-append, AllBlocks-append,
}

-- The context has taken the bytes of `blocks` and then `rest`, which wait in the buffer.
pub record Took (ctx : Context) (blocks : List (List ℕ)) (rest : List ℕ) : Type 0 where
  pub stale : List ℕ
  pub buffered : ctx.buffer ≡ rest ++ stale
  pub width : length rest + length stale ≡ 64
  pub waiting : ctx.datalen ≡ length rest
  pub short : length rest < 64
  pub bits : ctx.bitlen ≡ length blocks * 512 % 2 ^ 64
  pub state : ctx.state ≡ chain first_state blocks
  pub good : AllBlocks blocks

update_byte-Took :
    {ctx : Context} {blocks : List (List ℕ)} {rest : List ℕ} (byte : ℕ)
    → Took ctx blocks rest
    → (ctx' : Context) × (blocks' : List (List ℕ)) × (rest' : List ℕ) × (update_byte ctx byte
        ≡ ok ctx')
      × (joined blocks' ++ rest' ≡ joined blocks ++ (rest ++ byte ∷ []))
      × Took ctx' blocks' rest'
unfolding update_byte
update_byte-Took {ctx} {blocks} {rest} byte took = go took.stale refl
  where
    go :
        (stale : List ℕ)
        → took.stale ≡ stale
        → (ctx' : Context) × (blocks' : List (List ℕ)) × (rest' : List ℕ) × (update_byte ctx byte
            ≡ ok ctx')
          × (joined blocks' ++ rest' ≡ joined blocks ++ (rest ++ byte ∷ []))
          × Took ctx' blocks' rest'
    go [] e = absurd (ground (arith, took.width, took.short))
    go (x ∷ []) e =
        let here : put ctx.buffer ctx.datalen byte ≡ ok (rest ++ byte ∷ []) =
          rw (took.buffered, e) (put-middle rest [] ctx.datalen x byte took.waiting) in
        let last : ((ctx.datalen + 1) % 2 ^ 32 == 64) ≡ true =
          ground (arith, took.width, took.waiting) in
        let block : List ℕ = rest ++ byte ∷ [] in
        (
          record {
            buffer = block;
            datalen = 0;
            bitlen = (ctx.bitlen + 512) % 2 ^ 64;
            state = transform ctx.state block;
          },
          blocks ++ block ∷ [],
          [],
          rw (here, last) refl,
          (append-nil (joined (blocks ++ block ∷ []))
              ∙ joined-append blocks (block ∷ [])
              ∙ ap (λ t. joined blocks ++ t) (unfold joined in append-nil block)),
          record {
            stale = block;
            buffered = refl;
            width = ground (arith, length-append rest (byte ∷ []), took.width);
            waiting = refl;
            short = omega arith;
            bits = ground (arith, took.bits, length-append blocks (block ∷ []));
            state =
                ap (λ t. transform t block) took.state
                ∙ sym (chain-append first_state blocks (block ∷ []) ∙ unfold chain in refl);
            good =
                AllBlocks-append blocks (block ∷ []) took.good
                  (ground (arith, length-append rest (byte ∷ []), took.width), tt);
          },
        )
    go (x ∷ y ∷ stale) e =
        let here : put ctx.buffer ctx.datalen byte ≡ ok (rest ++ byte ∷ y ∷ stale) =
          rw (took.buffered, e) (put-middle rest (y ∷ stale) ctx.datalen x byte took.waiting) in
        let more : ((ctx.datalen + 1) % 2 ^ 32 == 64) ≡ false =
          ground (arith, took.width, took.waiting) in
        (
          record ctx { buffer = rest ++ byte ∷ y ∷ stale; datalen = (ctx.datalen + 1) % 2 ^ 32 },
          blocks,
          rest ++ byte ∷ [],
          rw (here, more) refl,
          refl,
          record {
            stale = y ∷ stale;
            buffered = sym (append_assoc rest (byte ∷ []) (y ∷ stale));
            width = ground (arith, length-append rest (byte ∷ []), took.width);
            waiting = ground (arith, length-append rest (byte ∷ []), took.waiting, took.short);
            short = ground (arith, length-append rest (byte ∷ []), took.width);
            bits = took.bits;
            state = took.state;
            good = took.good;
          },
        )

-- A context that has taken all of a message.
pub record TookAll (ctx : Context) (message : List ℕ) : Type 0 where
  pub blocks : List (List ℕ)
  pub rest : List ℕ
  pub whole : joined blocks ++ rest ≡ message
  pub took : Took ctx blocks rest

update-TookAll :
    (bytes message : List ℕ) {ctx : Context}
    → TookAll ctx message
    → (ctx' : Context) × (update ctx bytes ≡ ok ctx') × TookAll ctx' (message ++ bytes)
unfolding update
update-TookAll [] message {ctx} all =
    (ctx, refl, subst (λ m. TookAll ctx m) (sym (append-nil message)) all)
update-TookAll (byte ∷ bytes) message all =
    let (ctx', blocks', rest', run, e', took') = update_byte-Took byte all.took in
    let whole : joined blocks' ++ rest' ≡ message ++ byte ∷ [] =
      e'
      ∙ sym (append_assoc (joined all.blocks) all.rest (byte ∷ []))
      ∙ ap (λ t. t ++ byte ∷ []) all.whole in
    let (ctx'', run', took'') =
      update-TookAll bytes (message ++ byte ∷ [])
        (record { blocks = blocks'; rest = rest'; whole = whole; took = took' }) in
    (
      ctx'',
      rw run run',
      subst (λ m. TookAll ctx'' m) (append_assoc message (byte ∷ []) bytes) took'',
    )

pub update_all-TookAll :
    (reads : List (List ℕ)) (message : List ℕ) {ctx : Context}
    → TookAll ctx message
    → (ctx' : Context) × (update_all ctx reads ≡ ok ctx') × TookAll ctx' (message ++ joined reads)
unfolding update_all joined
update_all-TookAll [] message {ctx} took =
    (ctx, refl, subst (λ m. TookAll ctx m) (sym (append-nil message)) took)
update_all-TookAll (buf ∷ reads) message took =
    let (ctx', run, took') = update-TookAll buf message took in
    let (ctx'', run', took'') = update_all-TookAll reads (message ++ buf) took' in
    (
      ctx'',
      rw run run',
      subst (λ m. TookAll ctx'' m) (append_assoc message buf (joined reads)) took'',
    )

pub start-TookAll :
    (memory : List ℕ)
    → length memory ≡ 64
    → TookAll (record { buffer = memory; datalen = 0; bitlen = 0; state = first_state }) []
unfolding joined chain
start-TookAll memory width = record {
  blocks = [];
  rest = [];
  whole = refl;
  took = record {
    stale = memory;
    buffered = refl;
    width = omega (arith, width);
    waiting = refl;
    short = omega arith;
    bits = refl;
    state = refl;
    good = tt;
  };
}
