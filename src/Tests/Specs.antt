-- ===== src/Tests/Specs.antt =====
-- A file with two nodes.
use mathlib.Core.List.{Memᴰ}
use cbdynclusterd.Prelude.{String, none, List, [], ◌∷◌, map, All, ◌≡◌, ◌↔◌, refl, arith}
use cbdynclusterd.Prelude.Text.{split, trim_space}
use cbdynclusterd.Prelude.Result.{ok, panic, traverse, ◌>>=◌}
use cbdynclusterd.Manager.Spec.{parse, get_nodes, parse_line, parse_lines}
use cbdynclusterd.Manager.Spec.Laws.{
  NodeSpec, IsPlain, line, node, get_nodes-parse, parse_panics_iff,
}

abbrev two : List NodeSpec
two =
    record { host = "10.0.0.7"; port = "9000"; version = "6.0.1"; services = "kv,index" }
    ∷ record { host = "10.0.0.8"; port = ""; version = "6.0.1"; services = "kv" }
    ∷ []

two-IsPlain : All IsPlain two
two-IsPlain = ground arith

get_nodes-parse_example : (parse (ok (map line two, none)) >>= get_nodes) ≡ traverse node two
get_nodes-parse_example = get_nodes-parse two two-IsPlain

parse_panics_iff_example :
    (parse (ok ("node=a" ∷ "" ∷ [], none)) ≡ panic) ↔ Memᴰ {A = String} "" ("node=a" ∷ "" ∷ [])
parse_panics_iff_example = parse_panics_iff ("node=a" ∷ "" ∷ []) none

-- Comments and other keys are left out.
parse_comment : parse (ok ("# nodes" ∷ " node=a:b " ∷ "key=c" ∷ [], none)) ≡ ok ("a:b" ∷ [])
unfolding parse parse_lines parse_line split trim_space
parse_comment = refl
