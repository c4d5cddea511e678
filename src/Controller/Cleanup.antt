-- ===== src/Controller/Cleanup.antt =====
-- Lemmas on RunTest of controller/test_controller.go: the network that it leaves.
use zz_deprecated_kurtosis.Base.{
  ◌≡◌, ◌≢◌, refl, ◌∙◌, [], Option, none, some, Text, lookup, lookup_empty, text_eq, arith,
}
use zz_deprecated_kurtosis.Net.Cidr.{ip_text}
use zz_deprecated_kurtosis.Networks.ServiceNetwork.{
  ServiceNode, ServiceNetwork, new_service_network,
}
use zz_deprecated_kurtosis.Networks.ServiceNetwork.Invariant.{Sound, new-Sound}
use zz_deprecated_kurtosis.Networks.ServiceNetwork.Addresses.{Later-refl}
use zz_deprecated_kurtosis.Networks.ServiceNetwork.Lookups.{stop_each}
use zz_deprecated_kurtosis.Networks.Builder.{ServiceNetworkBuilder, add_configuration, build}
use zz_deprecated_kurtosis.Controller.Calls.{
  Configures, configured, configures, Calls, run_configures,
}
use zz_deprecated_kurtosis.Controller.TestController.{
  TestController, Surroundings, container_stop_timeout, Finish, unstarted, stopped, crashed,
}
use zz_deprecated_kurtosis.Controller.Upkeep.{Upkept}

-- No service has the address of the gateway or of the controller itself.
pub record Reserved {W Service Wrapped : Type 0} (controller : TestController W Service Wrapped)
    (n : ServiceNetwork W Service) : Type 0 where
  pub not_gateway :
      (k : Text) (a : ServiceNode Service)
      → lookup k n.service_nodes ≡ some a
      → ip_text a.ip_addr ≢ controller.gateway_ip
  pub not_controller :
      (k : Text) (a : ServiceNode Service)
      → lookup k n.service_nodes ≡ some a
      → ip_text a.ip_addr ≢ controller.test_controller_ip

-- `n` and `w` are the network and the world at the end of the test, before the deferred function.
pub record Stopped {W Service Wrapped : Type 0} (surroundings : Surroundings W)
    (controller : TestController W Service Wrapped) (m : ServiceNetwork W Service) (v : W)
    : Type 0 where
  pub n : ServiceNetwork W Service
  pub w : W
  pub sound : Sound n
  pub reserved : Reserved controller n
  pub empty : m ≡ record n { service_nodes = [] }
  pub stops : v ≡ stop_each surroundings.host container_stop_timeout n.service_nodes w

module _ {W Service Wrapped : Type 0} (surroundings : Surroundings W)
    (controller : TestController W Service Wrapped) where
  abbrev CleansUp : Finish W Service → Type 0
  CleansUp (unstarted e v) = Unit {0}
  CleansUp (stopped reports m v) = Stopped surroundings controller m v
  CleansUp (crashed n v) = Reserved controller n

  abbrev Holds : Option (Finish W Service) → Type 0
  Holds none = Unit {0}
  Holds (some f) = CleansUp f

-- ConfigureNetwork does not touch the builder's tracker.
pub run_configures-tracker :
    {W Service A : Type 0} (c : Configures W Service A) (b : ServiceNetworkBuilder W Service)
    → (run_configures c b).1.free_ip_tracker ≡ b.free_ip_tracker
unfolding run_configures add_configuration
run_configures-tracker (configured a) b = refl
run_configures-tracker (configures id image core checker_core later) b =
    run_configures-tracker (later (add_configuration id image core checker_core b).0) _ ∙ added
  where
    added : (add_configuration id image core checker_core b).1.free_ip_tracker ≡ b.free_ip_tracker
    added = ground arith

module _ {W Service : Type 0} where
  pub build-Upkept : (b : ServiceNetworkBuilder W Service) → Upkept b.free_ip_tracker (build b)
  unfolding build new_service_network
  build-Upkept b = record {
    sound = new-Sound b.free_ip_tracker _ _ _ _;
    later = Later-refl b.free_ip_tracker;
    avoids = λ s k a t e. cc (lookup_empty k);
  }
