-- ===== src/Lib.antt =====
-- A verification library for the Concordia protocol, a Python SDK for structured negotiation
-- between software agents.
--
-- The program. An agent finds partners in the registry of agents, or through a want of its own that
-- matches another agent's have, opens a negotiation session with one of them, and exchanges signed
-- messages whose hashes form a chain. The session accepts a message when it is authentic, bound to
-- the session, chained to the last one, and allowed by the state diagram and the round cap. Agents
-- that cannot reach each other talk through a relay, which keeps a transcript for each of its
-- sessions and a mailbox for each agent. The server issues the bearer tokens that these calls are
-- made with. A mandate, a signed credential that may be passed on along a chain of signed links,
-- says what an agent may do for another. Two agents may also commit to a chain session, whose
-- transitions are hash-linked records; a predicate over the commitments says when the chain may
-- close, and when an artifact is revoked, a cascade finds the ones that depend on it and issues a
-- signed denial for each.
--
-- Files and the code they model, from the repository's root.
--   Prelude and its children: shared names, lists, Python dictionaries with text keys, and the
--     outcome of code that may raise. No code of the repository.
--   Types: concordia/types.py. SessionState, MessageType, PartyRole, TimingConfig, BehaviorRecord.
--   Message: concordia/message.py. The envelope, GENESIS_HASH and validate_chain. Message.Chain
--     has the theorem on transcripts.
--   Session: concordia/session.py. The class Session as a record; `apply_message` is the guards
--     `admit` and the writes `commit_message`, in the order of the code. Session.Behavior is
--     _track_behavior and _compute_concession. Session.Run has sequences of calls, the other
--     children the theorems.
--   ChainSession: concordia/cmpc/chain_session.py. ChainSession, transition_to,
--     expire_due_to_timeout, verify_transcript.
--   Relay: concordia/relay.py. The data and the helpers of NegotiationRelay; Relay.Sessions has
--     create_session to conclude_session, Relay.Messages send_message, receive_messages and
--     get_transcript, Relay.Archives the archives, lists and statistics, Relay.Calls sequences of
--     calls, the other children the theorems.
--   AgentRegistry: concordia/registry.py. AgentRegistry and the entries it holds;
--     AgentRegistry.Cards is the card and the badge, AgentRegistry.Calls has sequences of calls,
--     the other children the theorems.
--   WantRegistry: concordia/want_registry.py, its data and the test of categories.
--     WantRegistry.Terms is compute_term_overlap, WantRegistry.Places the locations,
--     WantRegistry.Matching compute_match, WantRegistry.Store the stores of wants and of haves,
--     whose operations the code has twice, WantRegistry.Posting and
--     WantRegistry.Browse the class WantRegistry, the other children the theorems.
--   Auth: concordia/auth.py. AuthTokenStore; Auth.Calls has sequences of calls, Auth.Keys lemmas on
--     dictionaries keyed by session and role, the other children the theorems.
--   Closure: concordia/cmpc/predicate.py, its values and results. Closure.Comparands is typed
--     comparison, fields, dates and aggregation, Closure.Language the closure language,
--     Closure.Bilateral the bilateral profile, Closure.Profiles evaluate_predicate, the other
--     children the theorems.
--   Mandate: concordia/models/mandate.py, and of concordia/mandate.py the composition of the
--     restrictions along a chain. Mandate.Endpoint is check_revocation with the guard on the
--     endpoint, Mandate.Verify the other checks and verify_mandate, the other children the theorems.
--   Revocation: concordia/cmpc/revocation.py with the records it uses of cmpc/types.py and
--     cmpc/schemas.py. Revocation.Decisions is the decision records, their signing and
--     verification, Revocation.Cascade cascade_revocation, the other children the theorems.
--   The modules called Tests run the models on small inputs and apply each theorem to one.
--
-- State. Each method is a function from its arguments and the state to its result and the new
-- state. An exception is a value of an error type; every write that the code makes before it raises
-- or returns is in the new state. A message that a transcript and a mailbox of the relay share
-- stands in a store and both refer to it, so that a mark made through one is seen through the
-- other. Sequences of calls are lists, and what holds after any calls is proved by induction on
-- them.
--
-- Parameters. Code that is not in the repository, or that is Python's or a service of the host, is
-- an argument of the definitions that use it: the time of a call, identifiers made by uuid4, the
-- resolver of keys, random tokens, SHA-256 over canonical JSON, base64, Ed25519, the check of a
-- JSON schema, floats with their arithmetic, the functions of `math`, Python's `==` on JSON values,
-- the reading of dates, str.lower and str.split, and for the revocation endpoint of a mandate
-- urlsplit, the module ipaddress, the resolution of names and the fetch itself. A theorem that
-- needs the meaning of "allOf" in a JSON schema, or two inputs of the hash not to collide takes
-- that as a hypothesis. The callback of a session is the list of the states it was called at.
--
-- Bounds and fuel. Nearly every loop of the code runs over a list, and is structural recursion on
-- it. The `while` loop of cascade_revocation has as fuel 1 + n + ... + n^d rounds for n artifacts
-- and depth d: each round takes one item from the frontier, whose depth is at most d, and puts at
-- most n items one level deeper in its place (Revocation.Fuel). The evaluation of the closure
-- language takes Python's recursion limit as an argument, since the code turns a RecursionError
-- into a malformed predicate; above the depth of the expression it plays no part (Closure.Limit).
-- Numbers are natural; the duration of a session is 0 in the model where a clock that ran backwards
-- would make it negative in the code, and a limit or a TTL is taken not to be negative.
--
-- Not modelled: signing, canonical JSON, schema validation, the MCP server, the adapters and the
-- bridges to other services, which are calls of libraries and input or output; the dictionary forms
-- of records (to_dict, from_dict), except those that a transcript, an archive, a card or a badge
-- returns or that is signed; logging; the evidence of the result of a closure predicate; the
-- signing and verification of a revocation record itself; the signing of a mandate, and mandates
-- that are given as dictionaries. The resolvers of mandates and predicates, reputation, profiles,
-- receipts and attestations are not modelled either. A session message is one whose body is an
-- object of terms that are objects: on others apply_message may raise after the message is in the
-- transcript. The lookup of a name that the opener of a revocation endpoint makes when it connects,
-- after the one of the guard, is a part of the fetch. The parties of a session, and which of them
-- sends a message, play no part in apply_message, although SPEC.md (5.2) asks them to; the theorems
-- are of the code.
pub mod AgentRegistry
pub mod Auth
pub mod ChainSession
pub mod Closure
pub mod Mandate
pub mod Message
pub mod Prelude
pub mod Relay
pub mod Revocation
pub mod Session
pub mod Types
pub mod WantRegistry
