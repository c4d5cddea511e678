-- ===== src/Docker/Config/Readback.antt =====
-- Lemmas on getContainerCfg and getContainerHostConfig of commons/docker/docker_manager.go: what
-- Docker reads back from the entries that they print.
use mathlib.Core.List.{append-nil, append_assoc, map-append}
use zz_deprecated_kurtosis.Base.{
  ℕ, List, [], ◌∷◌, ◌++◌, map, Bool, Bool-cases, inl, inr, false, ◌||◌, if◌then◌else◌, ◌≡◌, refl,
  sym, ap, ◌∙◌, Text, ◌==◌, ==_refl, nat_eq, Dict, All, All-append, arith,
}
use zz_deprecated_kurtosis.Docker.Config.{
  env_entry, bind_entry, env_loop, binds_loop, get_container_cfg, get_container_host_config,
}

unfoldable pub occurs : ℕ → Text → Bool
occurs c [] = false
occurs c (d ∷ more) = d == c || occurs c more

-- What is before the first separator, and what is after it.
unfoldable pub cut_at : ℕ → Text → Text × Text
cut_at c [] = ([], [])
cut_at c (d ∷ more) =
    let rest = cut_at c more in if d == c then ([], more) else (d ∷ rest.0, rest.1)

-- The entry's key can be told from its value.
abbrev pub KeyLacks : ℕ → Text × Text → Type 0
KeyLacks c entry = occurs c entry.0 ≡ false

cut_at-entry :
    (c : ℕ) (key val : Text) → occurs c key ≡ false → cut_at c (key ++ c ∷ val) ≡ (key, val)
unfolding cut_at occurs
cut_at-entry c [] val h = rw (==_refl c)
cut_at-entry c (d ∷ key) val h = elim (Bool-cases (d == c)) [
  | inl same ↦ absurd (ground (arith, same))
  | inr other ↦
      let rest : occurs c key ≡ false = sym (ap (λ b. b || occurs c key) other) ∙ h in
      rw (other, cut_at-entry c key val rest)
]

-- The loops append one entry for each entry of the map, in its order.
env_loop_lem :
    (done : List Text) (entries : Dict Text Text)
    → env_loop done entries ≡ done ++ map env_entry entries
unfolding env_loop
env_loop_lem done [] = sym (append-nil done)
env_loop_lem done (entry ∷ more) =
    env_loop_lem (done ++ env_entry entry ∷ []) more ∙ append_assoc done _ _

binds_loop_lem :
    (done : List Text) (entries : Dict Text Text)
    → binds_loop done entries ≡ done ++ map bind_entry entries
unfolding binds_loop
binds_loop_lem done [] = sym (append-nil done)
binds_loop_lem done (entry ∷ more) =
    binds_loop_lem (done ++ bind_entry entry ∷ []) more ∙ append_assoc done _ _

map-cut_at :
    (c : ℕ) (entries : Dict Text Text)
    → All (KeyLacks c) entries
    → map (cut_at c) (map (λ e. e.0 ++ c ∷ e.1) entries) ≡ entries
map-cut_at c [] h = refl
map-cut_at c (entry ∷ more) h = rw (cut_at-entry c entry.0 entry.1 h.0, map-cut_at c more h.1)

binds_lem :
    (bind_mounts volume_mounts : Dict Text Text)
    → binds_loop (binds_loop [] bind_mounts) volume_mounts
      ≡ map bind_entry (bind_mounts ++ volume_mounts)
binds_lem bind_mounts volume_mounts =
    binds_loop_lem (binds_loop [] bind_mounts) volume_mounts
    ∙ (ap (λ l. l ++ map bind_entry volume_mounts) (binds_loop_lem [] bind_mounts)
        ∙ sym (map-append bind_entry bind_mounts volume_mounts))

-- When no variable's name contains a "=" and no mounted file's path or volume's name contains a ":":
-- cutting each entry of the container's environment at its first "=" gives back the environment
-- variables of the request, and cutting each of its binds at its first ":" gives back the mounted
-- files and then the mounted volumes of the request, all in the order in which the maps are visited.
pub get_container_cfg-readback :
    (docker_image : Text) (used_ports start_cmd_args : List Text)
    (env_variables bind_mounts volume_mounts : Dict Text Text)
    → All (KeyLacks b'=') env_variables
    → All (KeyLacks b':') bind_mounts
    → All (KeyLacks b':') volume_mounts
    → (map
          (cut_at b'=')
          (get_container_cfg docker_image used_ports start_cmd_args env_variables).env
        ≡ env_variables)
      × (map (cut_at b':') (get_container_host_config bind_mounts volume_mounts).binds
          ≡ bind_mounts ++ volume_mounts)
unfolding get_container_cfg get_container_host_config
get_container_cfg-readback docker_image used_ports start_cmd_args env_variables bind_mounts
      volume_mounts plain_env plain_binds plain_volumes =
    (
      ap (map (cut_at b'=')) (env_loop_lem [] env_variables)
          ∙ map-cut_at b'=' env_variables plain_env,
      ap (map (cut_at b':')) (binds_lem bind_mounts volume_mounts)
          ∙ map-cut_at b':' (bind_mounts ++ volume_mounts)
              (All-append (KeyLacks b':') bind_mounts volume_mounts plain_binds plain_volumes),
    )
