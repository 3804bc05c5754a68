-- ===== src/Lib.antt =====
-- LangSOP: the SOP authority pipeline, the operators, the runtime graph, and the records of
-- coordination, operations, the manager and the surfaces, modelled and verified.
--
-- The program runs bounded operations under signed SOP authority. `parse_sop_text` turns the text
-- of a SOP into one event for each line, with recoverable faults; from the events one candidate record
-- is extracted, which is classified and reported on. An operator request names a
-- contract; `run_contract_operator` resolves it, validates it against the contract, calls the
-- operator function and returns a result, a refusal, a fault or an interrupt with a trace. The
-- graph runner, `run_whole_field_planner_graph`, takes a graph state through packet intake, an
-- optional checkpoint, readiness, coordination, operator selection, the operator run, trace
-- recording and the completion gate to one terminal outcome. Beside the graph stand components that
-- check records and give a result with its issues: claims, work boundaries and reviews in coordination;
-- requests, their safety review, their refusals and their dry runs in operations; the readiness of a
-- cycle and its work packet in the manager; the envelopes for display in the surfaces.
--
-- Which file models which part:
--   Authority.Parser       src/langsop/authority/sop_parser.py: Line has the parse of one line, the
--                          parent itself the loop with its parent stack; Events and Nesting have the
--                          theorems
--   Authority.Extraction   src/langsop/authority/extraction.py
--   Authority.Validation   src/langsop/authority/validation.py; Signed says which candidates are signed
--                          authority, Faults which have a fault or a verified proof, Pipeline takes a
--                          text from its parse to the report
--   Authority.Discovery    src/langsop/authority/discovery.py; Complete has the count of its result
--   Operators.Values       the values of a mapping and the conversions `_as_string_sequence`,
--                          `_as_bool`, `_optional_str` of src/langsop/operators/contracts.py and
--                          `_string_tuple` of runner.py
--   Operators.Contracts    the records of contracts.py and `validate_operator_request`;
--                          Operators.Contracts.Admission says which requests it accepts
--   Operators.Requests     `request_from_mapping`; Readable says which mappings it reads, Shape has its
--                          refusals, RoundTrip the reading back
--   Operators.Traces       src/langsop/operators/traces.py; Shape has the check of a mapping
--   Operators.Results      the records of src/langsop/operators/runner.py
--   Operators.Classify     its private functions on outcomes and issues
--   Operators.Runner       `run_contract_operator`; Outcomes, Runs and TraceOf have its theorems
--   Runtime.State          src/langsop/runtime/graph_state.py; Outcome has the ranking of issues, Parts
--                          the constructor from keyword arguments
--   Runtime.Contracts      src/langsop/runtime/graph_contracts.py; Defaults has the default graph
--   Runtime.Checkpoints    src/langsop/runtime/checkpoints.py; Acceptance has its theorems
--   Runtime.Interrupts     src/langsop/runtime/interrupts.py; Review has its theorems
--   Runtime.Runner         the private functions of src/langsop/runtime/graph_runner.py
--   Runtime.Path           `run_whole_field_planner_graph`, one definition for each stage between two
--                          returns; Ends and Stages list the ways a run ends, Accepted, Gates, Walks
--                          and Interruption say what an accepted run, its visits and its outcome are
--   Coordination.Claims    src/langsop/coordination/claims.py; Compatibility has the relation of two claims,
--                          Boundary says which work boundaries are accepted
--   Coordination.Reviews   src/langsop/coordination/reviews.py; Override says which overrides are granted
--   Coordination.Mailbox   src/langsop/coordination/mailbox.py; Context says which carriers are accepted
--   Operations.Requests    src/langsop/operations/requests.py; Issues, Tested, Bounded and Admission say which
--                          requests are accepted
--   Operations.Safety      src/langsop/operations/resource_safety.py; Scoped says which approvals pass
--   Operations.Refusals    src/langsop/operations/refusals.py; Primary has the choice of the issue, Recorded
--                          the validity of the record
--   Operations.DryRun      src/langsop/operations/dry_run.py; OfValidated has the dry run of a validated request
--   Manager                src/langsop/manager/records.py, readiness.py and packets.py; Readiness.Follows
--                          and Packets.Claimable have the theorems, Stops.Unstopped the cycles that
--                          have no reason to stop
--   Manager.Authority      src/langsop/manager/authority.py; Promotion says which records are promoted
--   Manager.Faults         src/langsop/manager/faults.py; Recorded has the records of a cycle's issues
--   Surfaces.Display       src/langsop/surfaces/authority.py
--   Surfaces.State         src/langsop/surfaces/projection_state.py
--   Text                   the methods of `str` that the code uses; Affixes, Decimal and Sets have more of
--                          them and the sets of texts
--   Records                enumerations by their values, dictionaries of texts, and named fields
--   Digest                 the parameter that stands for SHA-256 of canonical JSON
--   Base                   shared names, Boolean tests and list lemmas
--   Tests                  runs at fixed inputs and one example for each result
--
-- How the code corresponds to the definitions: a dataclass is a record with its fields, an
-- enumeration is a data type with a function to its values, an issue list that is appended to is a
-- concatenation of conditional lists in the order of the code, and the two lists that a graph run
-- appends to are passed from stage to stage, as is the parser's stack of parents. In the components of
-- records a child Vocabulary has the enumerations, Fields the constant sets and the tests on them, Records
-- the dataclasses, and Parts the constructors from keyword arguments, where a member of an enumeration
-- is given by its text. A set is a list without order, and `sorted` of it is the sorted list of its
-- members; an argument that is an iterable is a list; a time is a natural number of milliseconds. Every loop of
-- the modelled code is a loop over a list or a text, and its definition is structural, without
-- bound or fuel. Only the decimal text of a line number counts its digits on fuel, one more than
-- the number, which is never less than the digits it has.
--
-- What stands outside: SHA-256 and the JSON encoder are one parameter, a function of the payload,
-- of which nothing is assumed; so is the hash of a SOP text and of a record's identifier. A file tree is the
-- list of paths that `rglob` gives, with what the file system says of each, and `fnmatchcase` is a parameter. Python's tables of the code points
-- above ASCII that an identifier may have are a parameter of the parser. The operator function is
-- an argument that returns a payload or raises an exception with a class name and a text. The
-- values of a mapping are modelled by their class, `str` and `repr`; the `repr` of a text is that
-- of printable text and ASCII. `lower` keeps a letter above ASCII whose lower case has no ASCII letter,
-- which no marker that the code looks for can tell apart.
--
-- What is not modelled: the reading of a SOP file; the constructors from a mapping of requests, refusals,
-- dry runs, cycles and classifications, which iterate values of any class; the action routes of coordination, operations
-- and the surfaces; the hand-offs of the manager; the projectors, the P6 surfaces
-- and the P5 records of the runtime, which are further components; the resolution of generated paths,
-- the SQLite projections and the fixture runners, which are input and output.
pub mod Base
pub mod Text
pub mod Digest
pub mod Operators
pub mod Records
pub mod Authority
pub mod Runtime
pub mod Operations
pub mod Manager
pub mod Surfaces
pub mod Coordination
mod Tests
