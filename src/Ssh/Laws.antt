-- ===== src/Ssh/Laws.antt =====
-- What GetSystemInfo's loop over /etc/os-release finds.
use Prim.Native.String.{◌++◌}
use cbdynclusterd.Prelude.{
  true, false, ◌≢◌, ◌⊎◌, String, ◌||◌, List, [], ◌∷◌, ◌≡◌, refl, ap, sym, ◌∙◌, ◌==◌, eq_iff, arith,
  if◌then◌else◌, Bool-cases, inl, inr,
}
use cbdynclusterd.Rest.{Net}
use cbdynclusterd.Server.{Server}
use cbdynclusterd.Prelude.Text.{split}
use cbdynclusterd.Prelude.Result.{ok, panic}
use cbdynclusterd.Ssh.{
  Ssh, run_ssh, get_system_info, os_info_of, arch_pattern, Regexp, id_pattern, version_pattern,
  first_match, or_matching, scan_release,
}

-- A text that is there, or else the first that a line gives.
abbrev or_first : Regexp → String → String → List String → String
or_first match pattern old ls = if old == "" then first_match match pattern ls else old

abbrev both_first : Regexp → String → String → List String → String × String
both_first match id version ls =
    (or_first match id_pattern id ls, or_first match version_pattern version ls)

or_first-∷ :
    (match : Regexp) (pattern old line : String) (ls : List String)
    → or_first match pattern (or_matching match pattern old line) ls
      ≡ or_first match pattern old (line ∷ ls)
unfolding first_match
or_first-∷ match pattern old line ls = ground arith

or_first-nil : (match : Regexp) (pattern old : String) → or_first match pattern old [] ≡ old
unfolding first_match
or_first-nil match pattern old = elim (Bool-cases (old == "")) [
  | inl blank ↦ rw blank (sym ((eq_iff old "").0 blank))
  | inr there ↦ rw there refl
]

-- Going on is no use once both are there.
both_there :
    (match : Regexp) (id version : String) (ls : List String)
    → (if (id == "") || (version == "") then both_first match id version ls else (id, version))
      ≡ both_first match id version ls
both_there match id version ls = elim (Bool-cases (id == "")) [
  | inl blank ↦ rw blank refl
  | inr there ↦ elim (Bool-cases (version == "")) [
    | inl blank ↦ rw (there, blank) refl
    | inr also ↦ rw (there, also) refl
  ]
]

-- What the loop has found already is kept; of what it has not, it finds the first.
scan_release-or_first :
    (match : Regexp) (id version : String) (ls : List String)
    → scan_release match id version ls ≡ both_first match id version ls
unfolding scan_release
scan_release-or_first match id version [] = λ i.
    (sym (or_first-nil match id_pattern id) i, sym (or_first-nil match version_pattern version) i)
scan_release-or_first match id version (l ∷ ls) =
    let id' = or_matching match id_pattern id l in
    let version' = or_matching match version_pattern version l in
    rw (scan_release-or_first match id' version' ls) (both_there match id' version' ls) ∙ λ i.
    (or_first-∷ match id_pattern id l ls i, or_first-∷ match version_pattern version l ls i)

scan_release_lem :
    (match : Regexp) (ls : List String)
    → scan_release match "" "" ls
      ≡ (first_match match id_pattern ls, first_match match version_pattern ls)
scan_release_lem match ls = scan_release-or_first match "" "" ls

not_blank : (s : String) → s ≢ "" → s == "" ≡ false
not_blank s h = ground (arith, eq_iff s "")

either_blank : (s t : String) → (s ≡ "") ⊎ (t ≡ "") → (s == "") || (t == "") ≡ true
either_blank s t (inl e) = ground (arith, eq_iff s "")
either_blank s t (inr e) = ground (arith, eq_iff t "")

os_info_of_lem :
    (id version arch : String)
    → os_info_of id version arch ≡ record {
      arch = if id == "centos" then arch else "amd64";
      platform = id ++ version;
      package_type = if id == "centos" then "rpm" else "deb";
    }
unfolding os_info_of
os_info_of_lem id version arch = elim (Bool-cases (id == "centos")) [
  | inl yes_centos ↦ rw yes_centos refl
  | inr other ↦ rw other refl
]

module _ (net : Net) (ssh : Ssh net) (match : Regexp) (n : Server) where
  -- Where /etc/os-release could be read: if some line of it gives an ID and some line a version, and
  -- lscpu runs, GetSystemInfo returns the first ID and the first version as the platform, with rpm
  -- and the architecture that lscpu names for centos, and deb and amd64 for any other; if no line
  -- gives an ID, or no line a version, the program ends, without lscpu.
  pub get_system_info_cases :
      (release : String) (s s1 : net.World)
      → run_ssh net ssh "cat /etc/os-release" n s ≡ (ok release, s1)
      → let id = first_match match id_pattern (split b'\n' release) in
        let version = first_match match version_pattern (split b'\n' release) in
        ((cpu : String) (s2 : net.World)
          → run_ssh net ssh "lscpu" n s1 ≡ (ok cpu, s2)
          → id ≢ ""
          → version ≢ ""
          → get_system_info net ssh match n s ≡ (
            ok (record {
              arch =
                  if id == "centos"
                  then first_match match arch_pattern (split b'\n' cpu)
                  else "amd64";
              platform = id ++ version;
              package_type = if id == "centos" then "rpm" else "deb";
            }),
            s2,
          ))
        × ((id ≡ "") ⊎ (version ≡ "") → get_system_info net ssh match n s ≡ (panic, s1))
  unfolding get_system_info
  get_system_info_cases release s s1 read = (
    λ cpu s2 ran named numbered.
        rw (read, scan_release_lem match (split b'\n' release))
          (rw (not_blank _ named, not_blank _ numbered)
            (rw ran (ap (λ info. (ok info, s2)) (os_info_of_lem _ _ _)))),
    λ missing.
        rw (read, scan_release_lem match (split b'\n' release))
          (rw (either_blank _ _ missing) refl),
  )
