-- ===== src/Networks/Builder/Store/Tests.antt =====
-- A builder that is used again after it has built a network.
use zz_deprecated_kurtosis.Base.{ℕ, ◌≡◌, List, [], ◌∷◌, Text, codes, ok, arith, nat_beq}
use zz_deprecated_kurtosis.Net.Defs.{ip4, put_uint32}
use zz_deprecated_kurtosis.Net.Cidr.{cidr_mask}
use zz_deprecated_kurtosis.Services.{ServiceInitializerCore, ServiceAvailabilityCheckerCore}
use zz_deprecated_kurtosis.Networks.ServiceNetwork.{ServiceConfig}
use zz_deprecated_kurtosis.Networks.Builder.{build}
use zz_deprecated_kurtosis.Networks.Builder.Laws.{add_all}
use zz_deprecated_kurtosis.Networks.Builder.Store.{
  Memory, BuilderObject, read_builder, read_network, build_in,
}
use zz_deprecated_kurtosis.Networks.Builder.Store.Sharing.{add_all_in, build_in-Separate}

abbrev core : ServiceInitializerCore ℕ Text
core = record {
  get_used_ports = [];
  get_service_from_ip = λ ip. ip;
  get_files_to_mount = [];
  initialize_mounted_files = λ files deps w. (ok tt, w);
  get_start_command = λ files ip deps w. (ok [], w);
  get_test_volume_mountpoint = [];
}

abbrev checker_core : ServiceAvailabilityCheckerCore Text
checker_core = record { is_service_up = λ poll service deps. nat_beq poll 1; get_timeout = 30 }

abbrev config : Text → ServiceConfig ℕ Text
config image = record {
  docker_image = image;
  initializer_core = core;
  availability_checker_core = checker_core;
}

-- One map, with one configuration, and one tracker.
abbrev memory : Memory ℕ Text
memory = record {
  next_map = 1;
  maps = λ ref. (codes "a", config (codes "image")) ∷ [];
  trackers = λ ref. record {
    subnet = record { ip = ip4 (put_uint32 0); mask = cidr_mask 29 };
    taken_ips = [];
  };
}

abbrev builder : BuilderObject
builder = record {
  docker_network_id = codes "n";
  free_ip_tracker = 0;
  configurations = 0;
  test_volume = codes "vol";
  test_volume_controller_dirpath = codes "/shared";
}

abbrev later : List (Text × ServiceConfig ℕ Text)
later = (codes "b", config (codes "other")) ∷ (codes "a", config (codes "third")) ∷ []

build_in-Separate_example :
    (read_network (add_all_in later builder (build_in builder memory).1) (build_in builder memory).0
      ≡ build (read_builder memory builder))
    × (read_builder (add_all_in later builder (build_in builder memory).1) builder
        ≡ add_all later (read_builder memory builder))
    × ((build_in builder memory).0.free_ip_tracker ≡ builder.free_ip_tracker)
build_in-Separate_example = build_in-Separate builder memory later (omega arith)
