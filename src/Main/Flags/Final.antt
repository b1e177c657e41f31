-- ===== src/Main/Flags/Final.antt =====
-- The variables of the command's own flags behind `setEnvVarFlags`.
use csi_gcs.Base.{String, Bool, true, ◌≡◌, refl, ap, ◌∙◌, [], Dict, lookup}
use csi_gcs.Flags.FlagSet.{Formal, parse_bool}
use csi_gcs.Util.BucketName.{char_or}
use csi_gcs.Main.CommandLine.{CommandLine, set_flag, set_value}
use csi_gcs.Main.Flags.{
  Variables, own_flags, all_flags, env_var, upper_char, sorted_names, set_env_var_flags,
}
use csi_gcs.Main.Flags.Laws.{
  has, is_member-sorted_names, env_or, visit_flags_lem, OthersLeave, set_flag_other, vars-noted,
  lift_all-OthersLeave,
}

-- A Boolean is read as `strconv.ParseBool` reads it; a text that it cannot read is false.
abbrev pub read_bool : String → Bool
read_bool text = (parse_bool text).0

-- The variables of the command's own flags behind the environment.
module _ {K : Type 0} (klog_flags : Dict (Formal K)) (getenv : String → String)
    (v : Variables K) where
  abbrev pub final : Variables K
  final = (set_env_var_flags (all_flags klog_flags) getenv (record { vars = v; actual = [] })).vars

  final_lem :
      {X : Type 0} (get : Variables K → X) (n : String) (read : String → X)
      → ((text : String) (c : CommandLine (Variables K))
          → get (set_flag (all_flags klog_flags) n text c).vars ≡ read text)
      → OthersLeave get n (all_flags klog_flags)
      → has n (all_flags klog_flags) ≡ true
      → get final ≡ env_or (getenv (env_var n)) read (get v)
  unfolding set_env_var_flags
  final_lem get n read here others there =
      visit_flags_lem (all_flags klog_flags) getenv get n read here
        (λ m text c ne. set_flag_other get n (all_flags klog_flags) m text c others ne)
        (sorted_names (all_flags klog_flags)) (record { vars = v; actual = [] })
      ∙ rw (is_member-sorted_names n (all_flags klog_flags), there) refl

  pub node_name_final : final.node_name ≡ env_or (getenv "NODE_NAME") (λ text. text) v.node_name
  unfolding env_var upper_char char_or
  node_name_final =
      final_lem (λ v. v.node_name) "node-name" (λ text. text)
        (λ text c. unfold set_flag set_value own_flags lookup in refl)
        (unfold own_flags set_value in
          (
            λ ne. absurd (ne refl),
            (
              λ ne text v. refl,
              (
                λ ne text v. refl,
                (
                  λ ne text v. refl,
                  (
                    λ ne text v. refl,
                    lift_all-OthersLeave (λ v. v.node_name) (λ k v. refl) "node-name" klog_flags,
                  ),
                ),
              ),
            ),
          ))
        (unfold own_flags in refl)

  pub driver_name_final :
      final.driver_name ≡ env_or (getenv "DRIVER_NAME") (λ text. text) v.driver_name
  unfolding env_var upper_char char_or
  driver_name_final =
      final_lem (λ v. v.driver_name) "driver-name" (λ text. text)
        (λ text c. unfold set_flag set_value own_flags lookup in refl)
        (unfold own_flags set_value in
          (
            λ ne text v. refl,
            (
              λ ne. absurd (ne refl),
              (
                λ ne text v. refl,
                (
                  λ ne text v. refl,
                  (
                    λ ne text v. refl,
                    lift_all-OthersLeave (λ v. v.driver_name) (λ k v. refl) "driver-name"
                        klog_flags,
                  ),
                ),
              ),
            ),
          ))
        (unfold own_flags in refl)

  pub endpoint_final : final.endpoint ≡ env_or (getenv "CSI_ENDPOINT") (λ text. text) v.endpoint
  unfolding env_var upper_char char_or
  endpoint_final =
      final_lem (λ v. v.endpoint) "csi-endpoint" (λ text. text)
        (λ text c. unfold set_flag set_value own_flags lookup in refl)
        (unfold own_flags set_value in
          (
            λ ne text v. refl,
            (
              λ ne text v. refl,
              (
                λ ne. absurd (ne refl),
                (
                  λ ne text v. refl,
                  (
                    λ ne text v. refl,
                    lift_all-OthersLeave (λ v. v.endpoint) (λ k v. refl) "csi-endpoint" klog_flags,
                  ),
                ),
              ),
            ),
          ))
        (unfold own_flags in refl)

  pub version_final : final.version ≡ env_or (getenv "VERSION") read_bool v.version
  unfolding env_var upper_char char_or
  version_final =
      final_lem (λ v. v.version) "version" read_bool
        (λ text c.
          unfold set_flag set_value own_flags lookup in
          ap (λ v. v.version)
            (vars-noted "version" c.actual
              (record c.vars { version = (parse_bool text).0 }, (parse_bool text).1)))
        (unfold own_flags set_value in
          (
            λ ne text v. refl,
            (
              λ ne text v. refl,
              (
                λ ne text v. refl,
                (
                  λ ne. absurd (ne refl),
                  (
                    λ ne text v. refl,
                    lift_all-OthersLeave (λ v. v.version) (λ k v. refl) "version" klog_flags,
                  ),
                ),
              ),
            ),
          ))
        (unfold own_flags in refl)

  pub delete_orphaned_pods_final :
      final.delete_orphaned_pods
      ≡ env_or (getenv "DELETE_ORPHANED_PODS") read_bool v.delete_orphaned_pods
  unfolding env_var upper_char char_or
  delete_orphaned_pods_final =
      final_lem (λ v. v.delete_orphaned_pods) "delete-orphaned-pods" read_bool
        (λ text c.
          unfold set_flag set_value own_flags lookup in
          ap (λ v. v.delete_orphaned_pods)
            (vars-noted "delete-orphaned-pods" c.actual
              (record c.vars { delete_orphaned_pods = (parse_bool text).0 }, (parse_bool text).1)))
        (unfold own_flags set_value in
          (
            λ ne text v. refl,
            (
              λ ne text v. refl,
              (
                λ ne text v. refl,
                (
                  λ ne text v. refl,
                  (
                    λ ne. absurd (ne refl),
                    lift_all-OthersLeave (λ v. v.delete_orphaned_pods) (λ k v. refl)
                        "delete-orphaned-pods" klog_flags,
                  ),
                ),
              ),
            ),
          ))
        (unfold own_flags in refl)
