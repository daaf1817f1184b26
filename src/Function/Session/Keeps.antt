-- ===== src/Function/Session/Keeps.antt =====
-- Every call keeps a function well formed, and so does every session of calls.
use Prim.Native.String.{String, ◌++◌ as text_append}
use text.Mathlib.Text.{◌==◌ as text_eq}
use xdec.Base.{
  ℕ, ◌≡◌, refl, Option, none, some, List, [], ◌∷◌, ◌>>=◌, if◌then◌else◌, Bool-cases, Option-cases,
  inl, inr, arith, get_elem?,
}
use xdec.Expr.{IlType}
use xdec.Function.{Function, OpCode, Op, at, blank_op, new_function, contains, invalid}
use xdec.Function.Append.{
  append_op, append_definition, append_maybe_definition, append_read_reg, append_write_reg,
  append_load, append_store, append_branch, append_cond_branch, append_indirect_branch, append_call,
  append_return, append_nop, append_unreachable,
}
use xdec.Function.Names.{intern_name, intern_pass, annotate, append_note, note_on, put_note}
use xdec.Function.Edit.{append_unimplemented, append_intrinsic, append_phi}
use xdec.Function.Build.{Expr-discrete}
use xdec.Table.{Table}
use xdec.Table.Interned.{empty-Agrees}
use xdec.Function.WellFormed.{IsWellFormed}
use xdec.Function.WellFormed.Edits.{
  append_definition-IsWellFormed, append_op-IsWellFormed, append_maybe_definition-IsWellFormed,
  create_block-IsWellFormed, prepend_phi-IsWellFormed, set_targets-IsWellFormed,
  set_operands-IsWellFormed,
}
use xdec.Function.WellFormed.Removal.{
  put_note-IsWellFormed, remove_op-IsWellFormed, drop_terminator-IsWellFormed,
}
use xdec.Function.WellFormed.Relink.{rebuild_edges-IsWellFormed}
use xdec.Function.Session.{Call, after, perform, perform_all}
use xdec.Function.Session.Builders.{
  Kept, aborted, kept, Kept-assert, Kept-bind, Kept-ok, Kept-intern, Kept-constant, Kept-boolean,
  Kept-value_ref, Kept-undefined, Kept-entry_reg, Kept-unary, Kept-binary, Kept-cast, Kept-extract,
  Kept-concat, Kept-select, Kept-flag_def, Kept-flag_condition, Kept-flag_bit_of,
}

-- Names, the pass and the entry are no part of what is kept.
relabelled-IsWellFormed :
    (f : Function) (names passes : Table String) (pass entry : ℕ)
    → IsWellFormed f
    → IsWellFormed
        (record f { names = names; passes = passes; current_pass = pass; entry_block = entry })
relabelled-IsWellFormed f names passes pass entry w = record {
  pool = w.pool;
  op_count = w.op_count;
  block_count = w.block_count;
  value_count = w.value_count;
  slices = w.slices;
  blocks = w.blocks;
  values = w.values;
}

module _ (f : Function) (w : IsWellFormed f) where
  Kept-append_op :
      (b : ℕ) (op : Op) (operands targets : List ℕ)
      → op.result ≡ invalid
      → Kept (append_op b op operands targets f)
  Kept-append_op b op operands targets free =
      Kept-ok _ (λ id g e. append_op-IsWellFormed b op operands targets f g id free w e)

  Kept-append_definition :
      (b : ℕ) (op : Op) (operands : List ℕ)
      → op.result ≡ invalid
      → Kept (append_definition b op operands f >>= λ r. some (r.0.0, r.1))
  Kept-append_definition b op operands free =
      elim (Option-cases (append_definition b op operands f)) [
        | inl e ↦ rw e aborted
        | inr ((r, g), e) ↦
            rw e (kept (append_definition-IsWellFormed b op operands f g r free w e))
      ]

  Kept-append_phi :
      (b va : ℕ) (type : IlType) (incoming : List ℕ) → Kept (append_phi b va type incoming f)
  unfolding append_phi
  Kept-append_phi b va type incoming =
      let op : Op = record (blank_op OpCode.phi va) { type = type } in
      elim (Option-cases (append_definition b op incoming f)) [
        | inl e ↦ rw e aborted
        | inr ((r, g), e) ↦
            rw e (kept (append_definition-IsWellFormed b op incoming f g r refl w e))
      ]

  Kept-append_maybe_definition :
      (b : ℕ) (op : Op) (operands : List ℕ)
      → op.result ≡ invalid
      → Kept (append_maybe_definition b op operands f)
  Kept-append_maybe_definition b op operands free =
      Kept-ok _ (λ id g e. append_maybe_definition-IsWellFormed b op operands f g id free w e)

  Kept-append_read_reg : (b va reg : ℕ) → Kept (append_read_reg b va reg f)
  unfolding append_read_reg
  Kept-append_read_reg b va reg = Kept-bind (at f.registers reg) _ (λ type.
      Kept-append_definition b (record (blank_op OpCode.read_reg va) { type = type; payload = reg })
        [] refl)

  Kept-append_write_reg : (b va reg x : ℕ) → Kept (append_write_reg b va reg x f)
  unfolding append_write_reg
  Kept-append_write_reg b va reg x =
      Kept-assert (contains reg f.registers) _ (
        Kept-append_op b (record (blank_op OpCode.write_reg va) { payload = reg }) (x ∷ []) [] refl)

  intern_name-IsWellFormed : (name : String) → IsWellFormed (intern_name name f).1
  unfolding intern_name
  intern_name-IsWellFormed name =
      relabelled-IsWellFormed f (intern_name name f).1.names f.passes f.current_pass f.entry_block w

  intern_pass-IsWellFormed : (name : String) → IsWellFormed (intern_pass name f).1
  unfolding intern_pass
  intern_pass-IsWellFormed name =
      relabelled-IsWellFormed f f.names (intern_pass name f).1.passes f.current_pass f.entry_block w

  annotate-IsWellFormed :
      (op : ℕ) (note : String) (f' : Function) → annotate op note f ≡ some f' → IsWellFormed f'
  unfolding annotate
  annotate-IsWellFormed op note f' h = elim (Bool-cases (text_eq note "")) [
    | inl e ↦
        let same : put_note op none f ≡ f' = ground arith in
        rw (← same) (put_note-IsWellFormed op none f w)
    | inr e ↦
        let same : put_note op (some note) f ≡ f' = ground arith in
        rw (← same) (put_note-IsWellFormed op (some note) f w)
  ]

  append_note-IsWellFormed :
      (op : ℕ) (note : String) (f' : Function) → append_note op note f ≡ some f' → IsWellFormed f'
  unfolding append_note
  append_note-IsWellFormed op note f' h = elim (Bool-cases (text_eq note "")) [
    | inl e ↦ let same : f ≡ f' = ground arith in rw (← same) w
    | inr e ↦
        let joined : String =
          if text_eq (note_on f op) ""
          then note
          else text_append (text_append (note_on f op) "; ") note in
        let same : put_note op (some joined) f ≡ f' = ground arith in
        rw (← same) (put_note-IsWellFormed op (some joined) f w)
  ]

pub Kept-append_unimplemented :
    (f : Function)
    → IsWellFormed f
    → (b va : ℕ) (name : String) → Kept (append_unimplemented b va name f)
unfolding append_unimplemented
Kept-append_unimplemented f w b va name =
    let (id, named) = intern_name name f in
    Kept-append_op named (intern_name-IsWellFormed f w name) b
      (record (blank_op OpCode.unimplemented va) { payload = id }) [] [] refl

pub Kept-append_intrinsic :
    (f : Function)
    → IsWellFormed f
    → (b va : ℕ) (name : String) (type : IlType) (args : List ℕ)
    → Kept (append_intrinsic b va name type args f)
unfolding append_intrinsic
Kept-append_intrinsic f w b va name type args =
    let (id, named) = intern_name name f in
    Kept-append_maybe_definition named (intern_name-IsWellFormed f w name) b
      (record (blank_op OpCode.intrinsic va) { type = type; payload = id }) args refl

Kept-after : (o : Option (ℕ × Function)) (g : Function) → Kept o → after o ≡ some g → IsWellFormed g
Kept-after none g k h = absurd (ground arith)
Kept-after (some (id, f)) g (kept w) h = let same : f ≡ g = ground arith in rw (← same) w

-- Any one call.
pub perform-IsWellFormed :
    (call : Call) (f f' : Function) → IsWellFormed f → perform call f ≡ some f' → IsWellFormed f'
unfolding perform append_load append_store append_branch append_cond_branch append_indirect_branch
    append_call append_return append_nop append_unreachable
perform-IsWellFormed (Call.intern expr) f f' w h = Kept-after _ f' (Kept-intern expr f w) h
perform-IsWellFormed (Call.constant type value) f f' w h =
    Kept-after _ f' (Kept-constant f w type value) h
perform-IsWellFormed (Call.boolean value) f f' w h = Kept-after _ f' (Kept-boolean f w value) h
perform-IsWellFormed (Call.value_ref value) f f' w h = Kept-after _ f' (Kept-value_ref f w value) h
perform-IsWellFormed (Call.undefined type) f f' w h = Kept-after _ f' (Kept-undefined f w type) h
perform-IsWellFormed (Call.entry_reg reg) f f' w h = Kept-after _ f' (Kept-entry_reg f w reg) h
perform-IsWellFormed (Call.unary op x) f f' w h = Kept-after _ f' (Kept-unary f w op x) h
perform-IsWellFormed (Call.binary op x y) f f' w h = Kept-after _ f' (Kept-binary f w op x y) h
perform-IsWellFormed (Call.cast op type x) f f' w h = Kept-after _ f' (Kept-cast f w op type x) h
perform-IsWellFormed (Call.extract type x low) f f' w h =
    Kept-after _ f' (Kept-extract f w type x low) h
perform-IsWellFormed (Call.concat type x y) f f' w h = Kept-after _ f' (Kept-concat f w type x y) h
perform-IsWellFormed (Call.select c x y) f f' w h = Kept-after _ f' (Kept-select f w c x y) h
perform-IsWellFormed (Call.flag_def op width args) f f' w h =
    Kept-after _ f' (Kept-flag_def f w op width args) h
perform-IsWellFormed (Call.flag_condition flags code) f f' w h =
    Kept-after _ f' (Kept-flag_condition f w flags code) h
perform-IsWellFormed (Call.flag_bit_of flags bit) f f' w h =
    Kept-after _ f' (Kept-flag_bit_of f w flags bit) h
perform-IsWellFormed (Call.create_block va) f f' w h =
    Kept-after _ f' (Kept-ok _ (λ id g e. create_block-IsWellFormed va f g id w e)) h
perform-IsWellFormed (Call.append_read_reg b va reg) f f' w h =
    Kept-after _ f' (Kept-append_read_reg f w b va reg) h
perform-IsWellFormed (Call.append_write_reg b va reg x) f f' w h =
    Kept-after _ f' (Kept-append_write_reg f w b va reg x) h
perform-IsWellFormed (Call.append_load b va type x) f f' w h =
    Kept-after _ f'
      (Kept-append_definition f w b (record (blank_op OpCode.load va) { type = type }) (x ∷ [])
        refl)
      h
perform-IsWellFormed (Call.append_store b va type x y) f f' w h =
    Kept-after _ f'
      (Kept-append_op f w b (record (blank_op OpCode.store va) { type = type }) (x ∷ y ∷ []) []
        refl)
      h
perform-IsWellFormed (Call.append_branch b va target) f f' w h =
    Kept-after _ f' (Kept-append_op f w b (blank_op OpCode.branch va) [] (target ∷ []) refl) h
perform-IsWellFormed (Call.append_cond_branch b va c t e) f f' w h =
    Kept-after _ f'
      (Kept-append_op f w b (blank_op OpCode.cond_branch va) (c ∷ []) (t ∷ e ∷ []) refl) h
perform-IsWellFormed (Call.append_indirect_branch b va x) f f' w h =
    Kept-after _ f' (Kept-append_op f w b (blank_op OpCode.indirect_branch va) (x ∷ []) [] refl) h
perform-IsWellFormed (Call.append_call b va x type) f f' w h =
    Kept-after _ f'
      (Kept-append_maybe_definition f w b (record (blank_op OpCode.call va) { type = type })
        (x ∷ []) refl)
      h
perform-IsWellFormed (Call.append_return b va) f f' w h =
    Kept-after _ f' (Kept-append_op f w b (blank_op OpCode.return va) [] [] refl) h
perform-IsWellFormed (Call.append_nop b va) f f' w h =
    Kept-after _ f' (Kept-append_op f w b (blank_op OpCode.nop va) [] [] refl) h
perform-IsWellFormed (Call.append_unreachable b va) f f' w h =
    Kept-after _ f' (Kept-append_op f w b (blank_op OpCode.unreachable va) [] [] refl) h
perform-IsWellFormed (Call.append_unimplemented b va name) f f' w h =
    Kept-after _ f' (Kept-append_unimplemented f w b va name) h
perform-IsWellFormed (Call.append_intrinsic b va name type args) f f' w h =
    Kept-after _ f' (Kept-append_intrinsic f w b va name type args) h
perform-IsWellFormed (Call.append_phi b va type incoming) f f' w h =
    Kept-after _ f' (Kept-append_phi f w b va type incoming) h
perform-IsWellFormed (Call.prepend_phi b va type) f f' w h =
    Kept-after _ f' (Kept-ok _ (λ id g e. prepend_phi-IsWellFormed b va type f g id w e)) h
perform-IsWellFormed (Call.set_targets id targets) f f' w h =
    set_targets-IsWellFormed id targets f f' w h
perform-IsWellFormed (Call.set_operands id operands) f f' w h =
    set_operands-IsWellFormed id operands f f' w h
perform-IsWellFormed (Call.remove_op b id) f f' w h = remove_op-IsWellFormed b id f f' w h
perform-IsWellFormed (Call.drop_terminator b) f f' w h = drop_terminator-IsWellFormed b f f' w h
perform-IsWellFormed (Call.intern_name name) f f' w h =
    let same : (intern_name name f).1 ≡ f' = ground arith in
    rw (← same) (intern_name-IsWellFormed f w name)
perform-IsWellFormed (Call.intern_pass name) f f' w h =
    let same : (intern_pass name f).1 ≡ f' = ground arith in
    rw (← same) (intern_pass-IsWellFormed f w name)
perform-IsWellFormed (Call.set_current_pass pass) f f' w h =
    let same : record f { current_pass = pass } ≡ f' = ground arith in
    rw (← same) (relabelled-IsWellFormed f f.names f.passes pass f.entry_block w)
perform-IsWellFormed (Call.set_entry_block b) f f' w h =
    let same : record f { entry_block = b } ≡ f' = ground arith in
    rw (← same) (relabelled-IsWellFormed f f.names f.passes f.current_pass b w)
perform-IsWellFormed (Call.annotate op note) f f' w h = annotate-IsWellFormed f w op note f' h
perform-IsWellFormed (Call.append_note op note) f f' w h = append_note-IsWellFormed f w op note f' h
perform-IsWellFormed Call.rebuild_edges f f' w h = rebuild_edges-IsWellFormed f f' w h

none_there {ℓ} : {A : Type ℓ} (i : ℕ) (x : A) → get_elem? [] i ≡ some x → ⊥
none_there i x e = cc

pub new_function-IsWellFormed :
    (registers : List IlType) (entry_va : ℕ) → IsWellFormed (new_function registers entry_va)
unfolding new_function
new_function-IsWellFormed registers entry_va = record {
  pool = record { agrees = empty-Agrees Expr-discrete; bounded = omega arith };
  op_count = omega arith;
  block_count = omega arith;
  value_count = omega arith;
  slices = λ id op e. cc;
  blocks = λ b x e. absurd (none_there b x e);
  values = λ id op e v. absurd (none_there id op e);
}

-- Any session of calls.
pub perform_all-IsWellFormed :
    (calls : List Call) (f f' : Function)
    → IsWellFormed f
    → perform_all calls f ≡ some f'
    → IsWellFormed f'
unfolding perform_all
perform_all-IsWellFormed [] f f' w h = let same : f ≡ f' = ground arith in rw (← same) w
perform_all-IsWellFormed (call ∷ calls) f f' w h = elim (Option-cases (perform call f)) [
  | inl e ↦ absurd (ground arith)
  | inr (g, e) ↦
      perform_all-IsWellFormed calls g f' (perform-IsWellFormed call f g w e) (rw (e, ◌>>=◌) at h)
]

-- A function that any sequence of the calls of `Call` builds from a new function, with no call
-- aborting, has a pool that is hash-consed, slices of operands and targets within their pools,
-- blocks that list ops that are there with only the last one a terminator, and valid results whose
-- value names the op as its definition.
pub session-IsWellFormed :
    (registers : List IlType) (entry_va : ℕ) (calls : List Call) (f : Function)
    → perform_all calls (new_function registers entry_va) ≡ some f
    → IsWellFormed f
session-IsWellFormed registers entry_va calls f h =
    perform_all-IsWellFormed calls (new_function registers entry_va) f
      (new_function-IsWellFormed registers entry_va) h
