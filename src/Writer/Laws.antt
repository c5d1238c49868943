-- ===== src/Writer/Laws.antt =====
-- src/wire.c: the writers compose as one write of the joined text.
use thalovant_embedded_c.Base.{
  ℕ, ◌+◌, ◌<◌, Option, none, some, [], ◌∷◌, ◌++◌, append-nil, append_assoc, ◌≡◌, refl, ◌∙◌, ◌⊎◌,
  inl, inr, Bytes, codes, length, length-append, ltb, if◌then◌else◌, ok, err, nomem, ◌>>=◌, ◌>>◌,
  fail_if, arith, ◌≤◌, ◌%◌, ◌^◌, int_max, leb, take_all, true, Result, Bool-cases,
}
use thalovant_embedded_c.Writer.{
  append, json_piece, append_pieces, append_json_string, append_string_or_null, int_return,
}

-- The text of a JSON string literal.
unfoldable pub pieces : Bytes → Bytes
pieces [] = []
pieces (c ∷ text) = json_piece c ++ pieces text

unfoldable pub literal : Bytes → Bytes
literal text = b'"' ∷ (pieces text ++ b'"' ∷ [])

unfoldable pub literal_or_null : Option Bytes → Bytes
literal_or_null none = codes "null"
literal_or_null (some text) = literal text

pub append-eq :
    (room : ℕ) (out text : Bytes)
    → append room out text
      ≡ (if ltb (length (out ++ text)) room then ok (out ++ text) else err nomem)
unfolding append
append-eq room out text = ground (arith, length-append out text)

-- Two writes in turn are one write of both texts.
pub append-append :
    (room : ℕ) (out a b : Bytes)
    → (append room out a >>= λ o. append room o b) ≡ append room out (a ++ b)
unfolding append
append-append room out a b =
    ground (arith, length-append out a, length-append a b, append_assoc out a b)

pub append-fits :
    (room : ℕ) (out text o : Bytes)
    → append room out text ≡ ok o
    → (o ≡ out ++ text) × (length o < room)
unfolding append
append-fits room out text o h = ground (arith, length-append out text)

pub append-cases :
    (room : ℕ) (out text : Bytes)
    → (append room out text ≡ ok (out ++ text)) ⊎ (append room out text ≡ err nomem)
unfolding append
append-cases room out text = ground arith

pub append_pieces-eq :
    (room : ℕ) (text out : Bytes)
    → length out < room
    → append_pieces room out text ≡ append room out (pieces text)
unfolding append_pieces pieces
append_pieces-eq room [] out h = unfold append in ground (arith, append-nil out)
append_pieces-eq room (c ∷ text) out h = elim (append-cases room out (json_piece c)) [
  | inl e ↦
      let fits = append-fits room out (json_piece c) (out ++ json_piece c) e in
      rw e (append_pieces-eq room text (out ++ json_piece c) fits.1)
      ∙ rw e at (append-append room out (json_piece c) (pieces text))
  | inr e ↦ rw e (rw e at (append-append room out (json_piece c) (pieces text)))
]

abbrev quote : Bytes
quote = b'"' ∷ []

opens :
    (room : ℕ) (out : Bytes)
    → (fail_if (leb room (length out + 1)) nomem >> ok (out ++ quote)) ≡ append room out quote
unfolding append
opens room out = ground arith

closes :
    (room : ℕ) (out : Bytes)
    → (fail_if (ltb room (length out + 2)) nomem >> ok (out ++ quote)) ≡ append room out quote
unfolding append
closes room out = ground arith

-- The literal, from the opening quote on.
string_body :
    (room : ℕ) (out text : Bytes)
    → length out < room
    → (append_pieces room out text >>= λ o.
        (fail_if (ltb room (length o + 2)) nomem >> ok (o ++ quote)))
      ≡ append room out (pieces text ++ quote)
string_body room out text h =
    rw (append_pieces-eq room text out h) (elim (append-cases room out (pieces text)) [
      | inl e ↦
          rw e (closes room (out ++ pieces text))
          ∙ rw e at (append-append room out (pieces text) quote)
      | inr e ↦ rw e (rw e at (append-append room out (pieces text) quote))
    ])

-- A string is written as its literal, in one piece or not at all.
pub append_json_string-eq :
    (room : ℕ) (out text : Bytes)
    → append_json_string room out text ≡ append room out (literal text)
unfolding append_json_string literal
append_json_string-eq room out text = elim (append-cases room out quote) [
  | inl e ↦
      let fits = append-fits room out quote (out ++ quote) e in
      let guard : fail_if (leb room (length out + 1)) nomem ≡ ok tt =
        ground (arith, length-append out quote) in
      rw guard (string_body room (out ++ quote) text fits.1)
      ∙ rw e at (append-append room out quote (pieces text ++ quote))
  | inr e ↦
      let guard : fail_if (leb room (length out + 1)) nomem ≡ err nomem =
        ground (arith, opens room out) in
      rw guard (rw e at (append-append room out quote (pieces text ++ quote)))
]

pub append_string_or_null-eq :
    (room : ℕ) (out : Bytes) (text : Option Bytes)
    → append_string_or_null room out text ≡ append room out (literal_or_null text)
unfolding append_string_or_null literal_or_null
append_string_or_null-eq room out none = refl
append_string_or_null-eq room out (some text) = append_json_string-eq room out text

-- A length of an int is returned as it is.
pub int_return-eq : (out : Bytes) → length out ≤ int_max → int_return out ≡ ok out
unfolding int_return
int_return-eq out fits =
    let same : length out % 2 ^ 32 ≡ length out = omega arith in
    let small : leb (length out) int_max ≡ true = ground arith in
    rw (same, small, take_all (length out) out (omega arith)) refl

-- A text in a buffer, with its terminator, and its length as an int; or the buffer is too small.
unfoldable pub whole : ℕ → Bytes → Result Bytes
whole cap text = if ltb (length text) cap then int_return text else err nomem

pub append-whole :
    (room : ℕ) (text : Bytes) → (append room [] text >>= int_return) ≡ whole room text
unfolding whole
append-whole room text =
    rw (append-eq room [] text)
      (elim (Bool-cases (ltb (length text) room)) [ inl e ↦ rw e refl | inr e ↦ rw e refl ])

-- A buffer of at most INT_MAX bytes and the terminator.
pub whole-small :
    (room : ℕ) (text : Bytes)
    → room ≤ int_max + 1
    → whole room text ≡ (if ltb (length text) room then ok text else err nomem)
unfolding whole
whole-small room text small = elim (Bool-cases (ltb (length text) room)) [
  | inl e ↦ rw e (int_return-eq text (ground arith))
  | inr e ↦ rw e refl
]
