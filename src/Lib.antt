-- ===== src/Lib.antt =====
-- The core of tezcatlipoca, which deploys cyber-defence competitions on Proxmox hosts, resumes and
-- tears them down: what may be destroyed, which vmids are given out, in what order a teardown
-- runs, and where a deploy may resume.
--
-- Base           tests on native numbers, lists, sets as lists of members, texts, dictionaries, and
--                methods that change a world and may raise. A text is the list of its code points.
-- Naming         common/constants.py: comp_slug, comp_tag, ownership_tags. `lower` maps the ASCII
--                letters; other characters are outside of [a-z0-9-] and become dashes, except the
--                two whose lower case in Python is or contains an ASCII letter (the Kelvin sign and
--                the capital I with a dot), which are not modelled.
-- Proxmox        the service that infra/ and estate/ send requests to, as a parameter: a state,
--                queries that may raise, and what a mutating request does. Nothing is assumed of it,
--                but where a theorem about the stamping of tags says so.
-- Tags           infra/ownership.py: parse_vm_tags, the joined form of tags, the tokens of a text.
-- Ownership      infra/ownership.py: ownership_verdict, gc_orphan_volumes, destroy_vm_if_exists,
--                the comments of bridges, and in Ownership.Roles role templates and
--                retag_ownership. The world is the service's state and the list of the mutating
--                requests sent so far; `expect` is none where the caller passes None. A set of tags
--                is the list of its members. A request and the wait for the task that it starts are
--                one request, which may fail.
-- Vmids          multinode/placement_record.py, multinode/nodes_config.py, common/targets.py and
--                red/red01_ops.py: the arithmetic of vmids, reserved_vmids, check_team_blocks.
--                Dictionaries keyed by team or node are lists of pairs, identifiers are numbers.
-- Red            infra/red01.py: who holds the vmid of red01, the red team's machine.
-- Teardown       teardown/plan.py, teardown/steps.py and teardown/engine.py: TeardownPlan and
--                TeardownEngine.execute with its journal; teardown/inventory.py and verify_clean in
--                Teardown.Inventory and Teardown.Clean. A step is a record with what it does to an
--                arbitrary world; it returns a result, refuses, or raises.
-- Deploy         infra/gates.py and deploy_lib/runner.py: check_resume_gates, run_pipeline, and in
--                Deploy.Stale check_stale_estate_state. Phases are arbitrary functions that change
--                a world and may raise.
-- RoundLoop      engine/round_loop.py: round_loop_state and heal_actions, on a payload whose times
--                are parsed. Times are ticks of one clock; the age of a round is kept as the pair of
--                times that it lies between.
-- Estate         estate/state.py: the inventory of resources (record, forget, resources) in
--                Estate.Rows, the flat view of the document (absorb, flatten) in Estate.Flat. A value
--                of JSON is of any type with the operations that the code uses. In Estate.Destroy
--                estate/destroy.py: destroy_tier and destroy_estate against any service, with
--                node_bridges and destroy_bridge_if_exists of infra/client.py.
-- Planner        multinode/placement_planner.py: probe_node in Planner.Probing, compute_placement in
--                Planner.Place and Planner.Compute; load_nodes_config of multinode/nodes_config.py,
--                which gives it the nodes, in Planner.Nodes, from what the file holds, and satellite_routes_for of
--                multinode/placement_record.py in Planner.Routes. The floats that headroom is counted in are of any
--                type with the two operations that the code uses; NaN is left out.
-- Preflight      infra/collisions.py and infra/plan.py: what a deploy will create, check_placement
--                in Preflight.Bands, check_collisions in Preflight.Collisions, and the addresses of
--                the management network in Preflight.Addresses. What the service and the guests
--                answer is a parameter, with none for a request that raises.
-- Verifier       verifier/model.py, verifier/verdict.py and verifier/scoreboard.py: gate results, the
--                verdict of a run, and check_services in Verifier.Scoreboard, on what the engine
--                answers. The details of results, which are texts to read, are left out.
-- Tlaloc         tlaloc/tlaloc/policy.py and tlaloc/tlaloc/decide.py: the rules of engagement of the
--                red team's agent (Policy.validate), the team in focus (Tlaloc.Focus), the client
--                that asks its model (Tlaloc.Clef) and the choice of the next effect
--                (Tlaloc.Decide). Times are ticks, fractions of the duration are quotients of
--                natural numbers, probabilities are of any type.
--
-- Ownership uses Naming, Tags and Proxmox; Red and the report of Teardown use Naming, Tags and the
-- VMs of Proxmox; Estate.Destroy calls destroy_vm_if_exists and vm_occupancy of Ownership, and
-- Preflight ownership_verdict and check_team_blocks; Planner ends with check_team_blocks and reads
-- the guests of Preflight. The phases of a deploy and the steps of a
-- teardown meet the rest through the world that they act on, which is a parameter. Every loop of
-- the source runs over a list and is structural recursion here; only the digits of a number are
-- written with fuel, the number and one more, which is at least the count of its digits. Numbers are
-- natural numbers without a bound, as the ints of the source are where they are not negative.
--
-- Not modelled: output, log lines and the wording of messages beyond what a result carries; time
-- stamps in the journal; the file lock of a deploy; the ledger of tolerated failures
-- (deploy_lib/failure.py); loading and saving of the state document; guests, network, portal and
-- scrims, and the effects of the red team's agent, which are commands on other machines.
pub mod Base
pub mod Naming
pub mod Proxmox
pub mod Tags
pub mod Ownership
pub mod Vmids
pub mod Red
pub mod Teardown
pub mod Deploy
pub mod RoundLoop
pub mod Estate
pub mod Preflight
pub mod Verifier
pub mod Planner
pub mod Tlaloc
