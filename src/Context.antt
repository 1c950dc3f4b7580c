-- ===== src/Context.antt =====
-- daemon/context.go: who asks, and whether ownership is to be ignored. A context.Context is what
-- it holds under the two keys; a value of another type reads as absent.
use cbdynclusterd.Prelude.{String, Bool, false, Option, none, some}

pub record Context : Type 0 where
  pub user_value : Option String
  pub ignore_ownership_value : Option Bool

unfoldable pub new_context : Context → String → Bool → Context
new_context parent user ignore_ownership = record {
  user_value = some user;
  ignore_ownership_value = some ignore_ownership;
}

unfoldable pub context_user : Context → String
context_user ctx = elim ctx.user_value [ some user ↦ user | none ↦ "" ]

unfoldable pub context_ignore_ownership : Context → Bool
context_ignore_ownership ctx = elim ctx.ignore_ownership_value [ some b ↦ b | none ↦ false ]

-- context.Background()
abbrev pub background : Context
background = record { user_value = none; ignore_ownership_value = none }
