-- ===== src/Manager/Spec/Laws.antt =====
-- What parse and getNodes read of a file of nodes.
use Prim.Native.Char.{Char, code}
use Prim.Native.String.{◌++◌}
use mathlib.Core.List.{Memᴰ}
use text.Mathlib.TextLemmas.{cons-append}
use cbdynclusterd.Prelude.{
  ℕ, String, false, Option, none, some, List, [], ◌∷◌, map, All, ◌≡◌, ◌↔◌, refl, sym, ap, ◌∙◌,
  subst, eqb, ◌⊎◌, inl, inr, Bool-cases,
}
use cbdynclusterd.Prelude.Chars.{
  AllChars, IsSolid, split-single, split-append, AllChars-append, AllChars-map, trim_space_lem,
}
use cbdynclusterd.Prelude.Text.{split, trim_space, is_space}
use cbdynclusterd.Prelude.Result.{Error, Result, ok, err, panic, traverse, ◌>>=◌}
use cbdynclusterd.Server.{Server}
use cbdynclusterd.Manager.Spec.{
  from_spec, node_of_info, get_nodes, parse_line, parse_lines, parse, node_entry, append_if,
  unless_error,
}

-- No colon, no equals sign and no white space.
abbrev pub IsPlainChar : ℕ → Type 0
IsPlainChar c = (eqb c b':' ≡ false) × (eqb c b'=' ≡ false) × (is_space c ≡ false)

-- What one line says of a node.
pub record NodeSpec : Type 0 where
  pub host : String
  pub port : String
  pub version : String
  pub services : String

abbrev pub IsPlain : NodeSpec → Type 0
IsPlain n =
    AllChars IsPlainChar n.host
    × AllChars IsPlainChar n.port
    × AllChars IsPlainChar n.version
    × AllChars IsPlainChar n.services

abbrev info : NodeSpec → String
info n = n.host ++ (":" ++ (n.port ++ (":" ++ (n.version ++ (":" ++ n.services)))))

-- A line of the file.
abbrev pub line : NodeSpec → String
line n = "node" ++ ("=" ++ info n)

no_colon : (s : String) → AllChars IsPlainChar s → AllChars (λ c. eqb c b':' ≡ false) s
no_colon s = AllChars-map IsPlainChar (λ c. eqb c b':' ≡ false) s (λ c h. h.0)

split-info :
    (n : NodeSpec) → IsPlain n → split b':' (info n) ≡ n.host ∷ n.port ∷ n.version ∷ n.services ∷ []
split-info n h =
    split-append ":" n.host _ (no_colon _ h.0)
    ∙ ap (λ r. n.host ∷ r)
        (split-append ":" n.port _ (no_colon _ h.1)
          ∙ ap (λ r. n.port ∷ r)
              (split-append ":" n.version _ (no_colon _ h.2)
                ∙ ap (λ r. n.version ∷ r) (split-single b':' n.services (no_colon _ h.3))))

info-AllChars :
    (Q : ℕ → Type 0) (n : NodeSpec)
    → ((c : ℕ) → IsPlainChar c → Q c)
    → Q b':'
    → IsPlain n
    → AllChars Q (info n)
info-AllChars Q n f colon h =
    let plain = λ (s : String) (k : AllChars IsPlainChar s). AllChars-map IsPlainChar Q s f k in
    let after = λ (s t : String) (k : AllChars IsPlainChar s) (rest : AllChars Q t).
      AllChars-append Q s (":" ++ t) (plain s k) (AllChars-append Q ":" t (colon, tt) rest) in
    after n.host _ h.0 (after n.port _ h.1 (after n.version _ h.2 (plain n.services h.3)))

parse_line_lem :
    (c : Char) (s : String)
    → eqb (code c) b'#' ≡ false
    → AllChars IsSolid (String.◌∷◌ c s)
    → parse_line (String.◌∷◌ c s) ≡ ok (node_entry (split b'=' (String.◌∷◌ c s)))
unfolding parse_line
parse_line_lem c s e h = rw (e, trim_space_lem (String.◌∷◌ c s) h) refl

parse_line-line : (n : NodeSpec) → IsPlain n → parse_line (line n) ≡ ok (some (info n))
parse_line-line n h =
    let as_cons = cons-append "n" "ode" ("=" ++ info n) in
    let no_space : AllChars IsSolid (line n) =
      AllChars-append IsSolid "node" _ (refl, (refl, (refl, (refl, tt))))
        (AllChars-append IsSolid "=" _ (refl, tt) (info-AllChars IsSolid n (λ c k. k.2) refl h)) in
    let entry : split b'=' (line n) ≡ "node" ∷ info n ∷ [] =
      split-append "=" "node" (info n) (refl, (refl, (refl, (refl, tt))))
      ∙ ap (λ r. "node" ∷ r)
          (split-single b'=' (info n)
            (info-AllChars (λ d. eqb d b'=' ≡ false) n (λ c k. k.1) refl h)) in
    ap parse_line as_cons
    ∙ (parse_line_lem "n" _ refl (subst (AllChars IsSolid) as_cons no_space)
        ∙ (ap (λ l. ok (node_entry (split b'=' l))) (sym as_cons)
            ∙ ap (λ r. ok (node_entry r)) entry))

parse_lines-map-line :
    (ns : List NodeSpec) → All IsPlain ns → parse_lines (map line ns) ≡ ok (map info ns)
unfolding parse_lines
parse_lines-map-line [] h = refl
parse_lines-map-line (n ∷ ns) h = rw (parse_line-line n h.0, parse_lines-map-line ns h.1) refl

-- The node for a line.
abbrev pub node : NodeSpec → Result Server
node n = from_spec n.host n.port n.version n.services

get_nodes-map-info :
    (ns : List NodeSpec) → All IsPlain ns → get_nodes (map info ns) ≡ traverse node ns
unfolding get_nodes traverse node_of_info
get_nodes-map-info [] h = refl
get_nodes-map-info (n ∷ ns) h = rw (split-info n h.0) (rw (get_nodes-map-info ns h.1) refl)

-- A file with a line node=host:port:version:services for each node is read back: parse and getNodes
-- give, in this order, the nodes that fromSpec makes of the four texts, or the panic of the first of
-- them. Supposes that the texts have no colon, no equals sign and no white space.
pub get_nodes-parse :
    (ns : List NodeSpec)
    → All IsPlain ns
    → (parse (ok (map line ns, none)) >>= get_nodes) ≡ traverse node ns
unfolding parse
get_nodes-parse ns h = rw (parse_lines-map-line ns h) (get_nodes-map-info ns h)

-- A line that is not empty does not panic.
line_read : (l : String) → (l ≡ "") ⊎ ((entry : Option String) × (parse_line l ≡ ok entry))
unfolding parse_line
line_read String.[] = inl refl
line_read (String.◌∷◌ c s) = inr (elim (Bool-cases (eqb (code c) b'#')) [
  | inl comment ↦ (none, rw comment refl)
  | inr other ↦ (node_entry (split b'=' (trim_space (String.◌∷◌ c s))), rw other refl)
])

no_panic :
    (entry : Option String) (r : Result (List String))
    → (r >>= λ parsed. ok (append_if entry parsed)) ≡ panic
    → r ≡ panic
no_panic entry panic h = refl
no_panic entry (ok xs) h = cc
no_panic entry (err e) h = cc

parse_lines-Memᴰ : (lines : List String) → parse_lines lines ≡ panic → Memᴰ "" lines
unfolding parse_lines
parse_lines-Memᴰ [] h = cc
parse_lines-Memᴰ (l ∷ ls) h = elim (line_read l) [
  | inl blank ↦ Memᴰ.head (sym blank)
  | inr (entry, read) ↦
      Memᴰ.tail (parse_lines-Memᴰ ls (no_panic entry (parse_lines ls) (rw read at h)))
]

after_panic :
    (l : String) (ls : List String) → parse_lines ls ≡ panic → parse_lines (l ∷ ls) ≡ panic
unfolding parse_lines parse_line
after_panic l ls h = elim (line_read l) [
  | inl blank ↦ rw blank refl
  | inr (entry, read) ↦ rw (read, h) refl
]

Memᴰ-parse_lines : (lines : List String) → Memᴰ "" lines → parse_lines lines ≡ panic
unfolding parse_lines parse_line
Memᴰ-parse_lines [] m = elim m [ ]
Memᴰ-parse_lines (l ∷ ls) (Memᴰ.head e) = rw (sym e) refl
Memᴰ-parse_lines (l ∷ ls) (Memᴰ.tail m) = after_panic l ls (Memᴰ-parse_lines ls m)

ended_panics :
    (e : Option Error) (r : Result (List String)) → (r >>= unless_error e) ≡ panic → r ≡ panic
ended_panics e panic h = refl
ended_panics none (ok xs) h = cc
ended_panics (some d) (ok xs) h = cc
ended_panics e (err d) h = cc

-- parse panics exactly if a line of the file is empty, whatever the other lines are, and whether
-- reading the file ended with an error or not.
pub parse_panics_iff :
    (lines : List String) (e : Option Error) → (parse (ok (lines, e)) ≡ panic) ↔ Memᴰ "" lines
unfolding parse
parse_panics_iff lines e = (
  λ h. parse_lines-Memᴰ lines (ended_panics e (parse_lines lines) h),
  λ m. rw (Memᴰ-parse_lines lines m) refl,
)
