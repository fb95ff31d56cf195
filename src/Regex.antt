-- ===== src/Regex.antt =====
-- The POSIX regular expressions that the program uses: `regcomp` and `regexec` are the C library's,
-- and stand in the model as a parameter. The texts of the patterns are not interpreted.
use sql_handler.Prelude.{ℕ, ◌+◌, ◌-◌, ◌≤◌, ◌++◌, Bool, Option, Text, take, drop, length}

-- The macros that hold the patterns.
pub data Pattern : Type 0 where
  -- container/SQLTextDefinitions.h
  reg_var reg_defvar reg_comments reg_tags reg_key_val : Pattern
  -- container/SQLAttribute.h, container/SQLQueryDefinitions.h
  reg_attr cont_reg_attr cont_reg_constr_base : Pattern

-- `regmatch_t`: `rm_so` and `rm_eo`.
abbrev pub Span : Type 0
Span = ℕ × ℕ

-- The array that `regexec` fills; `none` is an `rm_so` of -1.
abbrev pub Groups : Type 0
Groups = ℕ → Option Span

-- `compiles` is `regcomp(…) == 0`, and `exec` gives the groups if `regexec(…) == 0`.
pub record Regex : Type 0 where
  pub compiles : Pattern → Bool
  pub exec : Pattern → Text → Option Groups

-- `regexec` reports spans of the text that it was given, so `substr` and `erase` do not throw.
abbrev pub InText : Text → Span → Type 0
InText s (so, eo) = (so ≤ eo) × (eo ≤ length s)

-- `s.substr(pos, n)` for a `pos` in range
abbrev pub substr : Text → ℕ → ℕ → Text
substr s pos n = take n (drop pos s)

-- `s.substr(rm_so, rm_eo - rm_so)`
abbrev pub span_text : Text → Span → Text
span_text s (so, eo) = substr s so (eo - so)

-- `s.erase(rm_so, rm_eo - rm_so)`
abbrev pub erase_span : Text → Span → Text
erase_span s (so, eo) = take so s ++ drop (so + (eo - so)) s
