-- ===== src/Function/Rules.antt =====
-- include/xdec/il/expr.h: the arities and result rules in the table of expression ops.
use xdec.Base.{ℕ, Bool, true, false}
use xdec.Expr.{ExprOp}

-- The columns `minArity`, `maxArity` and `result` of the table of expression ops.
unfoldable pub min_arity : ExprOp → ℕ
min_arity op = elim op [
  | ExprOp.const ↦ 0
  | ExprOp.value ↦ 0
  | ExprOp.undef ↦ 0
  | ExprOp.entry_reg ↦ 0
  | ExprOp.neg ↦ 1
  | ExprOp.not ↦ 1
  | ExprOp.z_ext ↦ 1
  | ExprOp.s_ext ↦ 1
  | ExprOp.trunc ↦ 1
  | ExprOp.bitcast ↦ 1
  | ExprOp.extract ↦ 1
  | ExprOp.clz ↦ 1
  | ExprOp.ctz ↦ 1
  | ExprOp.pop_count ↦ 1
  | ExprOp.byte_swap ↦ 1
  | ExprOp.bit_reverse ↦ 1
  | ExprOp.select ↦ 3
  | ExprOp.flag_def ↦ 1
  | ExprOp.flag_cond ↦ 1
  | ExprOp.flag_bit ↦ 1
  | ExprOp.f_neg ↦ 1
  | ExprOp.f_abs ↦ 1
  | ExprOp.f_sqrt ↦ 1
  | ExprOp.f_ceil ↦ 1
  | ExprOp.fp_convert ↦ 1
  | ExprOp.fp_to_int_s ↦ 1
  | ExprOp.fp_to_int_u ↦ 1
  | ExprOp.int_to_fp_s ↦ 1
  | ExprOp.int_to_fp_u ↦ 1
  | _ ↦ 2
]

unfoldable pub max_arity : ExprOp → ℕ
unfolding min_arity
max_arity op = elim op [ ExprOp.flag_def ↦ 3 | other ↦ min_arity other ]

pub data ResultRule : Type 0 where
  explicit same_as_operands same_as_last_two boolean flags_result : ResultRule

unfoldable pub result_rule : ExprOp → ResultRule
result_rule op = elim op [
  | ExprOp.const ↦ ResultRule.explicit
  | ExprOp.value ↦ ResultRule.explicit
  | ExprOp.undef ↦ ResultRule.explicit
  | ExprOp.entry_reg ↦ ResultRule.explicit
  | ExprOp.cmp_eq ↦ ResultRule.boolean
  | ExprOp.cmp_ne ↦ ResultRule.boolean
  | ExprOp.cmp_lt_u ↦ ResultRule.boolean
  | ExprOp.cmp_le_u ↦ ResultRule.boolean
  | ExprOp.cmp_lt_s ↦ ResultRule.boolean
  | ExprOp.cmp_le_s ↦ ResultRule.boolean
  | ExprOp.z_ext ↦ ResultRule.explicit
  | ExprOp.s_ext ↦ ResultRule.explicit
  | ExprOp.trunc ↦ ResultRule.explicit
  | ExprOp.bitcast ↦ ResultRule.explicit
  | ExprOp.extract ↦ ResultRule.explicit
  | ExprOp.concat ↦ ResultRule.explicit
  | ExprOp.select ↦ ResultRule.same_as_last_two
  | ExprOp.flag_def ↦ ResultRule.flags_result
  | ExprOp.flag_cond ↦ ResultRule.boolean
  | ExprOp.flag_bit ↦ ResultRule.boolean
  | ExprOp.f_cmp_eq ↦ ResultRule.boolean
  | ExprOp.f_cmp_lt ↦ ResultRule.boolean
  | ExprOp.f_cmp_le ↦ ResultRule.boolean
  | ExprOp.f_cmp_unordered ↦ ResultRule.boolean
  | ExprOp.fp_convert ↦ ResultRule.explicit
  | ExprOp.fp_to_int_s ↦ ResultRule.explicit
  | ExprOp.fp_to_int_u ↦ ResultRule.explicit
  | ExprOp.int_to_fp_s ↦ ResultRule.explicit
  | ExprOp.int_to_fp_u ↦ ResultRule.explicit
  | _ ↦ ResultRule.same_as_operands
]

abbrev pub is_boolean : ResultRule → Bool
is_boolean rule = elim rule [ ResultRule.boolean ↦ true | _ ↦ false ]

abbrev pub is_explicit : ResultRule → Bool
is_explicit rule = elim rule [ ResultRule.explicit ↦ true | _ ↦ false ]
