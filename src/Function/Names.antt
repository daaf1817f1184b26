-- ===== src/Function/Names.antt =====
-- src/il/function.cpp: interned names and passes, and the notes on ops.
use Prim.Native.String.{String, ◌++◌ as text_append}
use text.Mathlib.Text.{◌==◌ as text_eq}
use text.Mathlib.TextEquality.{eq_iff}
use xdec.Base.{
  ℕ, ◌^◌, Option, none, some, get_elem?, assert, ◌>>◌, ◌==◌, if◌then◌else◌, Bool-cases, inl, inr,
}
use xdec.Table.{intern_key}
use xdec.Function.{Function, contains}

unfoldable pub String-discrete : Discrete String
String-discrete s t = elim (Bool-cases (text_eq s t)) [
  | inl e ↦ yes ((eq_iff s t).0 e)
  | inr e ↦ no (λ p. cc (e, (eq_iff s t).1 p))
]

unfoldable pub intern_name : String → Function → ℕ × Function
intern_name name f =
    let (id, names) = intern_key String-discrete (2 ^ 32) name f.names in
    (id, record f { names = names })

unfoldable pub name_of : Function → ℕ → String
name_of f id = elim (get_elem? f.names.items id) [ some name ↦ name | none ↦ "" ]

-- A pass identity has 16 bits.
unfoldable pub intern_pass : String → Function → ℕ × Function
intern_pass name f =
    let (id, passes) = intern_key String-discrete (2 ^ 16) name f.passes in
    (id, record f { passes = passes })

unfoldable pub pass_name : Function → ℕ → String
pass_name f id = elim (get_elem? f.passes.items id) [ some name ↦ name | none ↦ "?" ]

abbrev pub put_note : ℕ → Option String → Function → Function
put_note op note f = record f { notes = λ o. if o == op then note else f.notes o }

unfoldable pub annotate : ℕ → String → Function → Option Function
annotate op note f = do
  assert (contains op f.ops)
  some (if text_eq note "" then put_note op none f else put_note op (some note) f)

unfoldable pub note_on : Function → ℕ → String
note_on f op = elim (f.notes op) [ some note ↦ note | none ↦ "" ]

unfoldable pub append_note : ℕ → String → Function → Option Function
unfolding note_on
append_note op note f = do
  assert (contains op f.ops)
  let existing = note_on f op
  let joined = if text_eq existing "" then note else text_append (text_append existing "; ") note
  some (if text_eq note "" then f else put_note op (some joined) f)
