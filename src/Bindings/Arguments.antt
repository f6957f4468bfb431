-- ===== src/Bindings/Arguments.antt =====
-- What Python objects come to as arguments of the wrappers.
use fapolicyd_analyzer.Base.{ℕ, ◌≡◌, refl, true, false, some, List, [], ◌∷◌}
use fapolicyd_analyzer.Bindings.{SwigType, Python, given}
use fapolicyd_analyzer.Bindings.Runtime.{
  converted, fresh, unpack_tuple, item, checked, convert_ptr, convert_loop, as_unsigned_long,
  as_size_t, as_char_ptr, pointer_argument, pointer_and_index, pointer_and_text, pointer_index_text,
}

module _ (python : Python) where
  -- The object holds this address, this number, or this text.
  pub record IsPointer (type : SwigType) (object : python.Object) (p : ℕ) : Type 0 where
    pub not_none : python.is_none object ≡ false
    pub this : convert_loop python type (python.swig_this object) ≡ converted (some p)

  pub record IsNumber (object : python.Object) (n : ℕ) : Type 0 where
    pub long : python.is_long object ≡ true
    pub value : python.as_unsigned_long object ≡ some n

  pub record IsText (object : python.Object) (text : List ℕ) : Type 0 where
    pub unicode : python.is_unicode object ≡ true
    pub utf8 : python.as_utf8 object ≡ some text

  convert_ptr-IsPointer :
      (type : SwigType) (o : python.Object) {p : ℕ}
      → IsPointer type o p
      → convert_ptr python type (some o) ≡ converted (some p)
  unfolding convert_ptr
  convert_ptr-IsPointer type o is = rw (is.not_none, is.this) refl

  as_size_t-IsNumber :
      (o : python.Object) {n : ℕ} → IsNumber o n → as_size_t python (some o) ≡ converted n
  unfolding as_size_t as_unsigned_long
  as_size_t-IsNumber o is = rw (is.long, is.value) refl

  as_char_ptr-IsText :
      (o : python.Object) {text : List ℕ}
      → IsText o text
      → as_char_ptr python (some o) ≡ converted (fresh text)
  unfolding as_char_ptr
  as_char_ptr-IsText o is = rw (is.unicode, is.utf8) refl

  unpack_tuple-two :
      (args o₁ o₂ : python.Object)
      → python.tuple args ≡ some (o₁ ∷ o₂ ∷ [])
      → unpack_tuple python 2 2 (some args) ≡ given (some o₁ ∷ some o₂ ∷ [])
  unfolding unpack_tuple
  unpack_tuple-two args o₁ o₂ two = rw (two, unpack_tuple) refl

  unpack_tuple-three :
      (args o₁ o₂ o₃ : python.Object)
      → python.tuple args ≡ some (o₁ ∷ o₂ ∷ o₃ ∷ [])
      → unpack_tuple python 3 3 (some args) ≡ given (some o₁ ∷ some o₂ ∷ some o₃ ∷ [])
  unfolding unpack_tuple
  unpack_tuple-three args o₁ o₂ o₃ three = rw (three, unpack_tuple) refl

  pub pointer_argument-IsPointer :
      (type : SwigType) (o : python.Object) {p : ℕ}
      → IsPointer type o p
      → pointer_argument python type (some o) ≡ given (some p)
  unfolding pointer_argument checked
  pointer_argument-IsPointer type o is = rw (convert_ptr-IsPointer type o is) refl

  pub pointer_and_index-tuple :
      (type : SwigType) (args o₁ o₂ : python.Object) {p i : ℕ}
      → python.tuple args ≡ some (o₁ ∷ o₂ ∷ [])
      → IsPointer type o₁ p
      → IsNumber o₂ i
      → pointer_and_index python type (some args) ≡ given (some p, i)
  unfolding pointer_and_index item checked
  pointer_and_index-tuple type args o₁ o₂ two is is' =
      rw
        (
          unpack_tuple-two args o₁ o₂ two,
          convert_ptr-IsPointer type o₁ is,
          as_size_t-IsNumber o₂ is',
          pointer_and_index,
        )
        refl

  pub pointer_and_text-tuple :
      (type : SwigType) (args o₁ o₂ : python.Object) {p : ℕ} {text : List ℕ}
      → python.tuple args ≡ some (o₁ ∷ o₂ ∷ [])
      → IsPointer type o₁ p
      → IsText o₂ text
      → pointer_and_text python type (some args) ≡ given (some p, fresh text)
  unfolding pointer_and_text item checked
  pointer_and_text-tuple type args o₁ o₂ two is is' =
      rw
        (
          unpack_tuple-two args o₁ o₂ two,
          convert_ptr-IsPointer type o₁ is,
          as_char_ptr-IsText o₂ is',
          pointer_and_text,
        )
        refl

  pub pointer_index_text-tuple :
      (type : SwigType) (args o₁ o₂ o₃ : python.Object) {p i : ℕ} {text : List ℕ}
      → python.tuple args ≡ some (o₁ ∷ o₂ ∷ o₃ ∷ [])
      → IsPointer type o₁ p
      → IsNumber o₂ i
      → IsText o₃ text
      → pointer_index_text python type (some args) ≡ given (some p, i, fresh text)
  unfolding pointer_index_text item checked
  pointer_index_text-tuple type args o₁ o₂ o₃ three is is' is'' =
      rw
        (
          unpack_tuple-three args o₁ o₂ o₃ three,
          convert_ptr-IsPointer type o₁ is,
          as_size_t-IsNumber o₂ is',
          as_char_ptr-IsText o₃ is'',
          pointer_index_text,
        )
        refl
