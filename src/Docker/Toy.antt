-- ===== src/Docker/Toy.antt =====
-- A Docker with room for one network and one container, which does what Docker documents.
use zz_deprecated_kurtosis.Base.{
  ◌≡◌, refl, [], ◌∷◌, Bool, true, false, ◌&&◌, Result, if◌then◌else◌, Option, none, some, Text,
  codes, ◌==◌, ==_iff, text_eq, named, external, ok, err, arith,
}
use zz_deprecated_kurtosis.Actions.{Ends, returns, fails}
use zz_deprecated_kurtosis.Docker.{exited, EndpointSettings, DockerClient}
use zz_deprecated_kurtosis.Docker.View.{
  View, Same, NetworkCreated, ContainerCreated, Connected, ContainerStarted, CreateFailed,
  ConnectFailed, StartFailed, DockerLaws,
}

abbrev pub net_id : Text
net_id = codes "n"

abbrev pub box_id : Text
box_id = codes "c"

-- Whether the network exists; whether the container exists, and runs, and its endpoint settings.
pub record World : Type 0 where
  pub net : Bool
  pub box : Bool
  pub on : Bool
  pub ip : Option EndpointSettings

abbrev pub view : View World
view = record {
  containers = λ w k. w.box && box_id == k;
  running = λ w k. (w.box && w.on) && box_id == k;
  networks = λ w k. w.net && net_id == k;
  endpoint = λ w n k. if w.box && (net_id == n && box_id == k) then w.ip else none;
}

abbrev create_net : World → Bool → Result Text × World
create_net w true = (err (external 1), w)
create_net w false = (ok net_id, record w { net = true })

abbrev create_box : World → Bool → Result Text × World
create_box w true = (err (external 2), w)
create_box w false = (ok box_id, record w { box = true; on = false; ip = none })

abbrev connect_box : World → EndpointSettings → Bool → Result (Unit {0}) × World
connect_box w ip true = (ok tt, record w { ip = some ip })
connect_box w ip false = (err (external 3), w)

abbrev start_box : World → Bool → Result (Unit {0}) × World
start_box w true = (ok tt, record w { on = true })
start_box w false = (err (external 4), w)

abbrev pub client : DockerClient World
client = record {
  image_list = λ image w. (ok (image ∷ []), w);
  image_pull = λ image w. (ok tt, w);
  network_list = λ id w. (ok (if w.net then net_id ∷ [] else []), w);
  network_create = λ name settings w. create_net w w.net;
  network_inspect = λ id w. (ok (box_id ∷ []), w);
  network_connect =
      λ id container ip w. connect_box w ip (w.box && (net_id == id && box_id == container));
  network_remove = λ id w. (ok tt, record w { net = if net_id == id then false else w.net });
  volume_create = λ name w. (ok tt, w);
  container_create = λ config host_config w. create_box w w.box;
  container_start = λ id w. start_box w (w.box && box_id == id);
  container_stop = λ id timeout w. (ok tt, record w { on = if box_id == id then false else w.on });
  container_wait = λ id w. (exited 0, w);
}

same : (w : World) → Same view w w
same w = record {
  containers_kept = λ k. refl;
  running_kept = λ k. refl;
  networks_kept = λ k. refl;
  endpoint_kept = λ n k. refl;
}

net_created :
    (w : World) (b : Bool) → w.net ≡ b → Ends (NetworkCreated view w) (Same view w) (create_net w b)
net_created w true e = fails (same w)
net_created w false e = returns (record {
  network_new = ground arith;
  network_added = λ k. ground arith;
  running_kept = λ k. refl;
})

box_created :
    (w : World) (b : Bool)
    → w.box ≡ b
    → Ends (ContainerCreated view w) (CreateFailed view w) (create_box w b)
box_created w true e = fails (record { running_kept = λ k. refl; networks_kept = λ k. refl })
box_created w false e = returns (record {
  container_new = ground arith;
  container_added = λ k. ground arith;
  running_kept = λ k. ground arith;
  networks_kept = λ k. refl;
  endpoint_kept = λ n k. ground arith;
})

connected :
    (w : World) (id container : Text) (ip : EndpointSettings) (b : Bool)
    → w.box && (net_id == id && box_id == container) ≡ b
    → Ends (λ _. Connected view id container ip w) (ConnectFailed view w) (connect_box w ip b)
connected w id container ip true e = returns (record {
  endpoint_set = ground arith;
  endpoint_others =
      λ n k other. ground (arith, ==_iff box_id k, ==_iff container k, ==_iff box_id container);
  running_kept = λ k. refl;
  networks_kept = λ k. refl;
})
connected w id container ip false e =
    fails (record { running_kept = λ k. refl; networks_kept = λ k. refl })

started :
    (w : World) (id : Text) (b : Bool)
    → w.box && box_id == id ≡ b
    → Ends (λ _. ContainerStarted view id w) (StartFailed view id w) (start_box w b)
started w id true e = returns (record {
  running_now = λ k. ground (arith, ==_iff box_id k, ==_iff id k, ==_iff box_id id);
  networks_kept = λ k. refl;
  endpoint_kept = λ n k. refl;
})
started w id false e =
    fails (record { running_others = λ k other. refl; networks_kept = λ k. refl })

pub client-DockerLaws : DockerLaws client view
unfolding named
client-DockerLaws = record {
  absent = λ w id e. ground arith;
  image_list = λ image w. same w;
  image_pull = λ image w. same w;
  network_list = λ id w. same w;
  volume_create = λ name w. same w;
  network_create = λ name settings w. net_created w w.net refl;
  network_inspect = λ id w. returns (record { lists = λ k ip e r. ground arith; same = same w });
  network_connect = λ id container ip w. connected w id container ip _ refl;
  network_remove = λ id w. returns (record {
    network_gone = λ k. ground (arith, ==_iff net_id k, ==_iff id k, ==_iff net_id id);
    running_kept = λ k. refl;
  });
  container_create = λ config host_config w. box_created w w.box refl;
  container_start = λ id w. started w id _ refl;
  container_stop = λ id timeout w. returns (record {
    stopped = ground arith;
    stopping = record { none_started = λ k e. ground arith; networks_kept = λ k. refl };
  });
  container_wait = λ id w. record { none_started = λ k e. e; networks_kept = λ k. refl };
}
