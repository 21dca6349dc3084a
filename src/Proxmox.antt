-- ===== src/Proxmox.antt =====
-- The Proxmox service, which is not part of the repository, and the requests that infra/ and
-- estate/ send to it. What a request does to the service is a parameter: `State` is whatever the
-- service keeps. A mutating request may fail, and then the service may be in another state too.
-- The programs also keep the list of the mutating requests that they sent, in order.
use tezcatlipoca.Base.{ℕ, Bool, Option, List, Text}

-- Tags arrive as a list from the inventory and as one joined text from the service.
pub data RawTags : Type 0 where
  listed : List Text → RawTags
  joined : Text → RawTags

-- an entry of GET /nodes/{node}/qemu
pub record Vm : Type 0 where
  pub vmid : ℕ
  pub name : Text
  pub tags : RawTags
  pub running : Bool

-- GET /nodes/{node}/qemu/{vmid}/config
pub record Config : Type 0 where
  -- joined, and empty where there are none
  pub tags : Text
  pub description : Text
  pub lock : Text

pub record Volume : Type 0 where
  pub volid : Text
  pub owner : ℕ

pub data Mutation : Type 0 where
  unlock : (node : Text) (vmid : ℕ) → Mutation
  stop : (node : Text) (vmid : ℕ) → Mutation
  delete : (node : Text) (vmid : ℕ) → Mutation
  -- with the VM that the listing names as the volume's owner
  delete_volume : (node storage volid : Text) (owner : ℕ) → Mutation
  put_tags : (node : Text) (vmid : ℕ) (tags : Text) → Mutation
  delete_bridge : (node bridge : Text) → Mutation
  -- PUT /nodes/{node}/network, which brings staged changes into effect
  apply_network : (node : Text) → Mutation

-- an entry of GET /nodes/{node}/network
pub record Network : Type 0 where
  -- the empty text where there is none
  pub iface : Text
  pub comments : Text
  -- the field `type`
  pub kind : Option Text

pub record Proxmox : Type 1 where
  pub State : Type 0
  -- `none` is a request that raises
  pub list_vms : State → Text → Option (List Vm)
  pub config : State → Text → ℕ → Option Config
  pub storages : State → Text → Option (List Text)
  pub networks : State → Text → Option (List Network)
  pub volumes : State → Text → Text → ℕ → Option (List Volume)
  -- whether the request and the task that it starts succeed, and the state after it
  pub send : Mutation → State → Bool × State
