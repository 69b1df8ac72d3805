-- ===== src/Hosts/Tests.antt =====
-- A batch of two machines, bridged twice, on tables in memory.
use wa_ops.Base.{◌≡◌, refl, Bool, none, List, [], ◌∷◌}
use wa_ops.Base.Text.{Text, codes, includes, text_eq}
use wa_ops.Memory.{memory, Rows, row_at}
use wa_ops.Gateway.Credential.{Agent}
use wa_ops.Hosts.{Host}
use wa_ops.Hosts.Bridge.{SampleLike, Container, machine_ids, bridge_identity}
use wa_ops.Hosts.Bridge.Upsert.{OneHost}
use wa_ops.Hosts.Bridge.Unique.{IsBridged, bridge_identity-IsBridged}

abbrev sample : Text → SampleLike
sample resource_id = record {
  metric = codes "host.load.1";
  resource_id = resource_id;
  observed_at = 5;
  dim_name = none;
  dim_image = none;
}

abbrev samples : List SampleLike
samples =
    sample (codes "host_machine_a")
    ∷ sample (codes "host_machine_b")
    ∷ sample (codes "host_machine_a")
    ∷ sample (codes "host_x")
    ∷ []

two_machines : machine_ids [] samples ≡ codes "machine_a" ∷ codes "machine_b" ∷ []
unfolding machine_ids text_eq
two_machines = refl

no_hosts : Rows Host
no_hosts = []

none-OneHost : OneHost (memory Host) (memory Agent) (memory Container) no_hosts
unfolding row_at no_hosts
none-OneHost = record { same = λ j k q r m a. cc }

-- The upsert for the second machine fails.
abbrev fault : Text → Bool
fault m = includes b'b' m

bridge_identity-IsBridged_example :
    IsBridged (memory Host) (memory Agent) (memory Container) no_hosts (codes "t1") (
      bridge_identity
        (memory Host)
        (memory Agent)
        (memory Container)
        fault
        (codes "t1")
        (codes "a1")
        samples
        no_hosts
        [])
bridge_identity-IsBridged_example =
    bridge_identity-IsBridged (memory Host) (memory Agent) (memory Container) fault (codes "t1")
      (codes "a1") samples no_hosts [] none-OneHost
