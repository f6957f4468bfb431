-- ===== src/Parse/Sets.antt =====
-- The loop of `imbue_parser` that takes the keys, over one piece of the text, with fuel to spare.
use mathlib.Core.List.{append_assoc, append-nil}
use fapolicyd_analyzer.Base.{
  ℕ, zero, suc, ◌+◌, ◌<◌, ◌≡◌, refl, true, false, ◌==◌, List, [], ◌∷◌, ◌++◌, CString, length,
  Outcome, ok, arith,
}
use fapolicyd_analyzer.FieldArray.{FieldArray, set_key}
use fapolicyd_analyzer.Parse.Context.{Context, Side, object, fields, with_fields}
use fapolicyd_analyzer.Parse.Cursor.{Cursor, read, advance, terminate, skip_spaces}
use fapolicyd_analyzer.Parse.Format.{plain_byte, plain, starts, Pair, IsPair}
use fapolicyd_analyzer.Parse.Steps.{cursor}
use fapolicyd_analyzer.Parse.Imbue.{set_keys}

-- Whatever fuel covers the bytes ahead, the loop comes to `result`.
pub record Sets (side : Side) (num_fields : ℕ) (probe : Cursor) (ctx : Context)
    (result : Outcome (Context × List ℕ)) : Type 0 where
  pub run :
      (fuel : ℕ) → length probe.after < fuel → set_keys fuel side num_fields probe ctx ≡ result

-- the buffer up to the byte behind ` : `
abbrev pub past_colon : List ℕ → List ℕ
past_colon before = ((before ++ b' ' ∷ []) ++ b':' ∷ []) ++ b' ' ∷ []

module _ (side : Side) (n : ℕ) (ctx : Context) (result : Outcome (Context × List ℕ))
    (before after : List ℕ) where
  plain_run :
      (c fuel : ℕ)
      → plain_byte c ≡ true
      → Sets side n (cursor (before ++ c ∷ []) after) ctx result
      → suc (length after) < fuel
      → set_keys fuel side n (cursor before (c ∷ after)) ctx ≡ result
  unfolding set_keys read advance plain_byte
  plain_run c zero e rest h = absurd (omega arith)
  plain_run c (suc fuel) e rest h = ground (arith, rest.run fuel)

  equals_run :
      (fuel : ℕ)
      → Sets side n (cursor (before ++ 0 ∷ []) after) ctx result
      → suc (length after) < fuel
      → set_keys fuel side n (cursor before (b'=' ∷ after)) ctx ≡ result
  unfolding set_keys read advance terminate
  equals_run zero rest h = absurd (omega arith)
  equals_run (suc fuel) rest h = ground (arith, rest.run fuel)

  space_run :
      (d fuel : ℕ) (fa : FieldArray)
      → (d == b' ') ≡ false
      → (d == b':') ≡ false
      → set_key (fields side ctx) n (length (before ++ b' ' ∷ [])) ≡ ok fa
      → Sets side
          (n + 1)
          (cursor (before ++ b' ' ∷ []) (d ∷ after))
          (with_fields side ctx fa)
          result
      → suc (suc (length after)) < fuel
      → set_keys fuel side n (cursor before (b' ' ∷ d ∷ after)) ctx ≡ result
  unfolding set_keys read skip_spaces
  space_run d zero fa e f stored rest h = absurd (omega arith)
  space_run d (suc fuel) fa e f stored rest h = ground (arith, rest.run fuel)

  colon_run :
      (d fuel : ℕ) (fa : FieldArray)
      → (d == b' ') ≡ false
      → set_key ctx.object 0 (length (past_colon before)) ≡ ok fa
      → Sets object 1 (cursor (past_colon before) (d ∷ after)) (with_fields object ctx fa) result
      → suc (suc (suc (suc (length after)))) < fuel
      → set_keys fuel side n (cursor before (b' ' ∷ b':' ∷ b' ' ∷ d ∷ after)) ctx ≡ result
  unfolding set_keys read advance skip_spaces
  colon_run d zero fa e stored rest h = absurd (omega arith)
  colon_run d (suc fuel) fa e stored rest h = ground (arith, rest.run fuel)

  pub end_run :
      (fuel : ℕ)
      → suc (length after) < fuel
      → set_keys fuel side n (cursor before (0 ∷ after)) ctx ≡ ok (ctx, before ++ 0 ∷ after)
  unfolding set_keys read
  end_run zero h = absurd (omega arith)
  end_run (suc fuel) h = refl

-- Plain bytes are passed over.
pub Sets-plain :
    {side : Side} {n : ℕ} {ctx : Context} {result : Outcome (Context × List ℕ)}
    (before bytes after : List ℕ)
    → plain bytes ≡ true
    → Sets side n (cursor (before ++ bytes) after) ctx result
    → Sets side n (cursor before (bytes ++ after)) ctx result
unfolding plain
Sets-plain before [] after h rest = rw append-nil at rest
Sets-plain {side} {n} {ctx} {result} before (c ∷ bytes) after h rest =
    let first : plain_byte c ≡ true = ground arith in
    let more : plain bytes ≡ true = ground arith in
    let onward =
      Sets-plain (before ++ c ∷ []) bytes after more
        (rw (append_assoc before (c ∷ []) bytes) rest) in
    record {
      run = λ fuel enough.
          plain_run side n ctx result before (bytes ++ after) c fuel first onward enough;
    }

-- A field whose key is set already: up to the byte behind its value.
pub Sets-field :
    {side : Side} {n : ℕ} {ctx : Context} {result : Outcome (Context × List ℕ)} (p : Pair)
    (before tail : List ℕ)
    → IsPair p
    → Sets side n (cursor (before ++ (p.key ++ 0 ∷ p.value)) tail) ctx result
    → Sets side n (cursor before (p.key ++ b'=' ∷ (p.value ++ tail))) ctx result
Sets-field {side} {n} {ctx} {result} p before tail good rest =
    let whole : ((before ++ p.key) ++ 0 ∷ []) ++ p.value ≡ before ++ (p.key ++ 0 ∷ p.value) =
      simp append_assoc in
    let onward =
      Sets-plain ((before ++ p.key) ++ 0 ∷ []) p.value tail good.plain_value (rw whole rest) in
    Sets-plain before p.key (b'=' ∷ (p.value ++ tail)) good.plain_key (record {
      run = λ fuel enough.
          equals_run side n ctx result (before ++ p.key) (p.value ++ tail) fuel onward enough;
    })

-- A space before a key sets it.
pub Sets-space :
    {side : Side} {n : ℕ} {ctx : Context} {result : Outcome (Context × List ℕ)} (p : Pair)
    (before text : List ℕ) (fa : FieldArray)
    → IsPair p
    → set_key (fields side ctx) n (length (before ++ b' ' ∷ [])) ≡ ok fa
    → Sets side
        (n + 1)
        (cursor (before ++ b' ' ∷ []) (p.key ++ text))
        (with_fields side ctx fa)
        result
    → Sets side n (cursor before (b' ' ∷ (p.key ++ text))) ctx result
Sets-space {side} {n} {ctx} {result} p before text fa good stored = go p.key refl
  where
    go :
        (key : CString)
        → p.key ≡ key
        → Sets side
            (n + 1)
            (cursor (before ++ b' ' ∷ []) (key ++ text))
            (with_fields side ctx fa)
            result
        → Sets side n (cursor before (b' ' ∷ (key ++ text))) ctx result
    go [] e rest = absurd (unfold starts in ground (arith, good.starting))
    go (c ∷ key) e rest = record {
      run = λ fuel enough.
          space_run side n ctx result before (key ++ text) c fuel fa
            (unfold plain plain_byte in ground (arith, good.plain_key))
            (unfold starts in ground (arith, good.starting)) stored rest enough;
    }

-- ` : ` before a key sets it as the first of the object.
pub Sets-colon :
    {side : Side} {n : ℕ} {ctx : Context} {result : Outcome (Context × List ℕ)} (p : Pair)
    (before text : List ℕ) (fa : FieldArray)
    → IsPair p
    → set_key ctx.object 0 (length (past_colon before)) ≡ ok fa
    → Sets object 1 (cursor (past_colon before) (p.key ++ text)) (with_fields object ctx fa) result
    → Sets side n (cursor before (b' ' ∷ b':' ∷ b' ' ∷ (p.key ++ text))) ctx result
Sets-colon {side} {n} {ctx} {result} p before text fa good stored = go p.key refl
  where
    go :
        (key : CString)
        → p.key ≡ key
        → Sets object 1
            (cursor (past_colon before) (key ++ text))
            (with_fields object ctx fa)
            result
        → Sets side n (cursor before (b' ' ∷ b':' ∷ b' ' ∷ (key ++ text))) ctx result
    go [] e rest = absurd (unfold starts in ground (arith, good.starting))
    go (c ∷ key) e rest = record {
      run = λ fuel enough.
          colon_run side n ctx result before (key ++ text) c fuel fa
            (unfold plain plain_byte in ground (arith, good.plain_key)) stored rest enough;
    }
