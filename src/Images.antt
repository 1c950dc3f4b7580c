-- ===== src/Images.antt =====
-- daemon/images.go, and ensureImageExists and checkBuildExists of daemon/clusters.go: how the image
-- of a server version comes to be there. The context of the caller only serves log lines.
pub mod Laws
use Prim.Native.String.{◌++◌}
use cbdynclusterd.Prelude.{ℕ, String, [], ◌∷◌, eqb, if◌then◌else◌, ◌==◌}
use cbdynclusterd.Prelude.Result.{failure, wrap, Result, ok, err, panic}
use cbdynclusterd.Prelude.Exec.{Exec, lift, ◌>>=◌, ◌>>◌}
use cbdynclusterd.Docker.{Docker, EventStream}
use cbdynclusterd.Version.{NodeVersion, to_image_name, to_pkg_name, to_url}

-- The variables of daemon/daemon.go that initConfig sets.
pub record Config : Type 0 where
  pub docker_registry : String
  pub docker_host : String
  pub dns_svc_host : String

-- What the daemon asks of the world outside Docker and the data base: the status code of
-- http.Head, and the steps of github.com/jhoonb/archivex that write the build context's tar file.
pub record Outside : Type 0 where
  pub head : String → Result ℕ
  pub tar_create : String → Result (Unit {0})
  pub tar_add_all : String → Result (Unit {0})
  pub tar_close : Result (Unit {0})

-- if err != nil { return errors.Wrap(err, what) }
unfoldable pub wrapped : String → Result (Unit {0}) → Result (Unit {0})
wrapped what (ok u) = ok u
wrapped what (err e) = err (wrap e what)
wrapped what panic = panic

-- An event's fields that a later one leaves out keep their value in Go; for `error` that value is
-- empty, since the loop ends at the first that is not.
unfoldable pub parse_image_event : EventStream → Result (Unit {0})
parse_image_event [] = ok tt
parse_image_event (ok event ∷ events) =
    if event.error == "" then parse_image_event events else err (failure event.error)
parse_image_event (err e ∷ events) = err e
parse_image_event (panic ∷ events) = panic

abbrev found_status : Result ℕ → Result (Unit {0})
found_status (ok status) = if eqb status 200 then ok tt else err (failure "Could not locate build")
found_status (err e) = err (wrap e "Could not locate build")
found_status panic = panic

unfoldable pub check_build_exists : Outside → String → Result (Unit {0})
check_build_exists out url = found_status (out.head url)

-- fmt.Sprintf("%s/%s", versionInfo.toURL(), versionInfo.toPkgName())
unfoldable pub pkg_url : NodeVersion → String
pkg_url nv = to_url nv ++ ("/" ++ to_pkg_name nv)

-- helper.DockerFilePath + "couchbase/centos7"
abbrev pub dockerfile_path : String
dockerfile_path = "dockerfiles/couchbase/centos7"

module _ (dk : Docker) (cfg : Config) where
  unfoldable pub image_pull : String → Exec dk.Engine (Unit {0})
  image_pull image_ref = do
    events ← dk.image_pull image_ref cfg.docker_registry
    lift (wrapped "could not pull image" (parse_image_event events))

  unfoldable pub image_push : NodeVersion → Exec dk.Engine (Unit {0})
  image_push nv = do
    events ← dk.image_push (to_image_name cfg.docker_registry nv) cfg.docker_registry
    lift (wrapped "could not push image" (parse_image_event events))

  module _ (out : Outside) where
    unfoldable pub image_build : NodeVersion → String → Exec dk.Engine (Unit {0})
    image_build nv path = do
      let tar_path = "/tmp/" ++ (nv.version ++ ("-" ++ (nv.build ++ ".tar")))
      lift (wrapped "could not create tar file" (out.tar_create tar_path))
      lift (wrapped ("could not create add " ++ (path ++ " to tar file")) (out.tar_add_all path))
      lift (wrapped "could not close tar file" out.tar_close)
      events ← dk.image_build (record {
        build_context = tar_path;
        tag = to_image_name cfg.docker_registry nv;
        build_args =
            ("VERSION", nv.version)
            ∷ ("BUILD_NO", nv.build)
            ∷ ("FLAVOR", nv.flavor)
            ∷ ("BUILD_PKG", to_pkg_name nv)
            ∷ ("BASE_URL", to_url nv)
            ∷ [];
      })
      lift (wrapped "could not build image" (parse_image_event events))

    abbrev build_checked : NodeVersion → Exec dk.Engine (Unit {0})
    build_checked nv = do lift (check_build_exists out (pkg_url nv)); image_build nv dockerfile_path

    -- What is done with the result of the pull.
    abbrev pull_or_build : NodeVersion → Result (Unit {0}) → Exec dk.Engine (Unit {0})
    pull_or_build nv (ok _) = lift (ok tt)
    pull_or_build nv (err e) = do build_checked nv; image_push nv
    pull_or_build nv panic = lift panic

    unfoldable pub ensure_image_exists : NodeVersion → Exec dk.Engine (Unit {0})
    ensure_image_exists nv e =
        let (r, e') = image_pull (to_image_name cfg.docker_registry nv) e in
        let built = build_checked nv e in
        if cfg.docker_registry == "" then built else pull_or_build nv r e'
