-- ===== src/Images/Laws.antt =====
-- Event streams, and when an image is built.
use cbdynclusterd.Prelude.{
  [], ◌∷◌, All, ◌↔◌, ◌≡◌, ◌≢◌, refl, sym, ◌∙◌, arith, eq_iff, ◌==◌, Bool-cases, inl, inr,
  false≢true, false,
}
use cbdynclusterd.Prelude.Result.{Result, ok, err, panic}
use cbdynclusterd.Prelude.Exec.{continue_failed}
use cbdynclusterd.Docker.{Docker, ImageEvent, EventStream}
use cbdynclusterd.Version.{NodeVersion, to_image_name}
use cbdynclusterd.Images.{
  dockerfile_path, Config, Outside, parse_image_event, check_build_exists, pkg_url, image_pull,
  image_build, image_push, build_checked, pull_or_build, ensure_image_exists,
}

-- An event that was decoded and carries no error.
abbrev pub IsQuiet : Result ImageEvent → Type 0
IsQuiet (ok event) = event.error ≡ ""
IsQuiet (err e) = ⊥
IsQuiet panic = ⊥

-- A stream is accepted exactly if every event of it is decoded and carries no error.
parse_image_event_iff :
    (events : EventStream) → (parse_image_event events ≡ ok tt) ↔ All IsQuiet events
unfolding parse_image_event
parse_image_event_iff [] = (λ h. tt, λ h. refl)
parse_image_event_iff (ok event ∷ events) = elim (Bool-cases (event.error == "")) [
  | inl quiet ↦ (
    λ h. ((eq_iff event.error "").0 quiet, (parse_image_event_iff events).0 (rw quiet at h)),
    λ h. rw quiet ((parse_image_event_iff events).1 h.1),
  )
  | inr loud ↦ (
    λ h. let h' = rw loud at h in cc,
    λ h. absurd (false≢true (sym loud ∙ (eq_iff event.error "").1 h.0)),
  )
]
parse_image_event_iff (err e ∷ events) = (λ h. cc, λ h. absurd h.0)
parse_image_event_iff (panic ∷ events) = (λ h. cc, λ h. absurd h.0)

module _ (dk : Docker) (cfg : Config) (out : Outside) (nv : NodeVersion) (e : dk.Engine) where
  build_refused :
      (e' : dk.Engine)
      → check_build_exists out (pkg_url nv) ≢ ok tt
      → ((build_checked dk cfg out nv e').0 ≢ ok tt) × ((build_checked dk cfg out nv e').1 ≡ e')
  build_refused e' missing =
      continue_failed (check_build_exists out (pkg_url nv))
        (λ _. image_build dk cfg out nv dockerfile_path) e' tt missing

  pull_or_build_refused :
      (r : Result (Unit {0})) (e' : dk.Engine)
      → check_build_exists out (pkg_url nv) ≢ ok tt
      → ((pull_or_build dk cfg out nv r e').1 ≡ e')
        × (((pull_or_build dk cfg out nv r e').0 ≡ ok tt) ↔ (r ≡ ok tt))
  pull_or_build_refused (ok u) e' missing = (refl, (λ h. h, λ h. h))
  pull_or_build_refused (err error) e' missing =
      let (refused, same) = build_refused e' missing in
      let (no_push, still) =
        continue_failed (build_checked dk cfg out nv e').0 (λ _. image_push dk cfg nv)
          (build_checked dk cfg out nv e').1 tt refused in
      (still ∙ same, (λ h. absurd (no_push h), λ h. cc))
  pull_or_build_refused panic e' missing = (refl, (λ h. cc, λ h. cc))

  -- Nothing is built or pushed for a version if the check that its build exists fails. Without a
  -- registry the call then fails and Docker is left as it was; with one Docker is left as the pull
  -- left it, and the call succeeds exactly if the pull did.
  pub ensure_without_build :
      check_build_exists out (pkg_url nv) ≢ ok tt
      → (cfg.docker_registry ≡ ""
          → ((ensure_image_exists dk cfg out nv e).1 ≡ e)
            × ((ensure_image_exists dk cfg out nv e).0 ≢ ok tt))
        × (cfg.docker_registry ≢ ""
            → let pulled = image_pull dk cfg (to_image_name cfg.docker_registry nv) e in
              ((ensure_image_exists dk cfg out nv e).1 ≡ pulled.1)
              × (((ensure_image_exists dk cfg out nv e).0 ≡ ok tt) ↔ (pulled.0 ≡ ok tt)))
  unfolding ensure_image_exists
  ensure_without_build missing = (
    λ empty.
        let (refused, same) = build_refused e missing in
        rw ((eq_iff cfg.docker_registry "").1 empty) (same, refused),
    λ given. rw (not_empty given) (
        pull_or_build_refused (image_pull dk cfg (to_image_name cfg.docker_registry nv) e).0
          (image_pull dk cfg (to_image_name cfg.docker_registry nv) e).1 missing),
  )
    where
      not_empty : cfg.docker_registry ≢ "" → cfg.docker_registry == "" ≡ false
      not_empty given = ground (arith, eq_iff cfg.docker_registry "")
