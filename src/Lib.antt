-- ===== src/Lib.antt =====
-- a2a-tokenized-provisioning: network services sold as tokens and switched on against them.
--
-- A provider signs an offer, a buyer settles it on a chain and holds an entitlement, and the
-- provider's controller turns the entitlement into router configuration while it is valid. The
-- parts meet in the shapes and ports of `interfaces`.
--
-- Base: numbers, lists, texts (lists of character codes), decimal and hexadecimal digits.
-- Dict: Python's dictionary as an association list in insertion order.
-- Exec: methods that return or raise, with the state that they leave in both cases.
-- Interfaces: interfaces/src/a2a_interfaces/models.py; Ports: ports.py, where the chain is a reader
--   with one law (a view has the id it was read by) and the network is a state with operations;
--   Fixtures: fixtures.py; Patterns: the constrained fields of models.py.
-- Controller: controller/src/controller. Domain is domain.py, Auth is auth.py, Translators is
--   translators.py, App is app.py, ResourceMap is resource_map.py; Service, Activate and Teardown are
--   service.py, with a method as an action on the service's state. Their children hold the proofs.
--   Sessions is the invariant of the sessions, Quiet the calls that open none, Reach the controller
--   over time. Runtime is wiring.py, as reactions to events in any order; Serves gives its
--   service by the history of starts and closes. Overlap is two activations in threads.
-- Netctl: netctl/src/netctl. Mock is mock.py, the network that records its calls; Gnmi is
--   provisioner.py and paths.py over routers that are a parameter, Gnmi.Json and Gnmi.Reads what it
--   reads of their JSON (Shapes is what an answer says by the keys that are read), Gnmi.Readout the
--   inspector's view, and Gnmi.Router what SR Linux documents of reads and deletes, as laws of
--   that parameter.
-- Skeleton: e2e/src/e2e/skeleton. Chain is fakes.py, the settlement as dictionaries, with proofs in
--   Money, Rules, History and Uses; Stub is stub_controller.py, with what holds between its
--   sessions and the recording network in Backed, Opens, Ends and Sweeps; World is `MockWorld` of
--   worlds.py and the scripts of scripted_agents.py, as lines played in any order.
-- Chainmcp: chainmcp/src/chainmcp/client.py. Client is the reads, Watch the loop of the watcher and
--   Purchase `approve_and_fulfill`; Reverts is the names of reverts, with artifacts.py. web3, the
--   contract and the ABI decoders are parameters; what a node documents of its logs and ERC-20 of
--   an allowance are named hypotheses. Signing is the proof of client.py over an account of
--   eth_account.
-- Agents: agents/src/agents. Ledger and Provider are provider_graph.py, Catalogue is catalogue.py,
--   Consumer is consumer_graph.py and decision.py, Llm is llm.py, Tools is mcp_tools.py over the
--   app of the controller (Served) and for the provider (Selling), Adapter is the codec of
--   a2a_adapter.py. A reading of the chain's clock is an argument of a ledger call; the language
--   model, its validation, the signing tool and the tools of the consumer are parameters, which
--   may raise.
-- Dashboard: e2e/src/e2e/dashboard/orchestrator.py, the console's judgment slots and its purchase.
-- Tests: the canonical example run through the theorems.
--
-- Numbers are natural numbers, as pydantic makes them; Python's integers do not wrap. Loops run
-- over lists and need no fuel. The chain, the signature recovery and the network are parameters of
-- the controller; a call of the network or the chain may raise. What `teardown` of a provisioner
-- documents, that it returns, is a named hypothesis and holds of the mock and over gNMI.
--
-- Not modelled: FastAPI, MCP and A2A glue, threads beyond Overlap (elsewhere a request, a wake
-- and a delivery run to their ends before the next), YAML's syntax, environment, web3, pygnmi,
-- transcripts and prompts, the rest of the dashboard (its events, start-up, views and
-- revocation) and the experiments.
pub mod Base
pub mod Dict
pub mod Interfaces
pub mod Exec
pub mod Controller
pub mod Netctl
pub mod Skeleton
pub mod Chainmcp
pub mod Agents
pub mod Dashboard
pub mod Tests
