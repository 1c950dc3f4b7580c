-- ===== src/Docker.antt =====
-- What the daemon uses of the Docker client (github.com/docker/docker/client): a parameter. The
-- fields of the client's types that the daemon never reads are left out.
use cbdynclusterd.Prelude.{String, List, Bool}
use cbdynclusterd.Prelude.Result.{Result}
use cbdynclusterd.Prelude.Exec.{Exec}

pub record EndpointSettings : Type 0 where
  pub ip_address : String
  pub global_ipv6_address : String

-- `networks` is NetworkSettings.Networks; a key with a nil value is left out of it.
pub record Container : Type 0 where
  pub id : String
  pub names : List String
  pub state : String
  pub labels : List (String × String)
  pub networks : List (String × EndpointSettings)

-- The arguments of ContainerCreate: of container.Config, container.HostConfig, and the name.
pub record ContainerConfig : Type 0 where
  pub image : String
  pub labels : List (String × String)
  pub volumes : List String
  pub auto_remove : Bool
  pub network_mode : String
  pub dns : List String
  pub cap_add : List String
  pub container_name : String

-- types.ImageBuildOptions as imageBuild fills it in, with the path of the build context.
pub record ImageBuildOptions : Type 0 where
  pub build_context : String
  pub tag : String
  pub build_args : List (String × String)

-- imageEvent of daemon/images.go: the one field that is read.
pub record ImageEvent : Type 0 where
  pub error : String

-- An event stream is the list of what d.Decode returns before io.EOF.
abbrev pub EventStream : Type 0
EventStream = List (Result ImageEvent)

pub record Docker : Type 1 where
  pub Engine : Type 0
  -- with All: true
  pub container_list : Engine → Result (List Container)
  pub container_stop : String → Exec Engine (Unit {0})
  -- the new container's ID
  pub container_create : ContainerConfig → Exec Engine String
  pub container_start : String → Exec Engine (Unit {0})
  -- NetworkSettings.Networks of the result
  pub container_inspect : String → Engine → Result (List (String × EndpointSettings))
  pub network_list : Engine → Result (List String)
  -- the reference and RegistryAuth
  pub image_pull : String → String → Exec Engine EventStream
  pub image_push : String → String → Exec Engine EventStream
  pub image_build : ImageBuildOptions → Exec Engine EventStream
