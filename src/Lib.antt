-- ===== src/Lib.antt =====
-- Inference pipeline adaptation (IPA): a controller that picks, for each task of a pipeline of
-- models, a model variant, a number of replicas, a batch size and a CPU allocation.
--
-- The program and its parts. A Model is a variant of a task under one resource allocation, with
-- profiles of latency and throughput by batch size. A Task holds its models and the configuration
-- it stands at, a Pipeline is a list of tasks. The Optimizer tries configurations on the pipeline
-- and keeps those that meet the load and the service level. The adapters close the loop: they read
-- the load, predict it, ask the optimizer, choose the configuration that changes the least, apply
-- it to the cluster, or to the simulation, and report.
--
-- Where each part is modelled:
-- - Prelude: strings and numbers, lists, dicts in insertion order, and the effects. Python's
--   exceptions are values of Outcome, a method that mutates an object is a function of the state
--   that returns an Outcome and the new state (Method), and what it wrote before an exception
--   stays. list(map(...)) stops at a StopIteration, as Python does (list_map).
-- - Models.Profile: optimizer/models.py, ResourceAllocation, Profile and Model with
--   regression_model. Models.Task: the properties and plain setters of Task;
--   Models.BaseAllocation: Task.base_allocations; Models.Switch: the constructor of Task,
--   change_allocation, set_to_base_allocation and model_switch. Models.Pipeline: Pipeline.
-- - Optimizer.Objective, Optimizer.Rows, Optimizer.States, Optimizer.BruteForce and
--   Optimizer.Parameters: optimizer/optimizer.py, the objective and the constraints, all_states
--   with its rows, brute_force, and the coefficient tables of the integer program.
--   Optimizer.Program: gurobi_optmizer, with the program as data (Build and Goal), its solutions
--   read back (Decode), and optimize (Gurobi); Encoding gives the values of the variables that
--   stand for a choice.
-- - Adapter.Configs, Adapter.Predictor, Adapter.Cluster, Adapter.Monitoring, Adapter.Passes and
--   Adapter.Rounds: optimizer/adapter.py, output_parser, choose_config and saving_config_builder;
--   Predictor; extract_current_config and change_pipeline_config; Monitoring; start_adaptation.
--   Adapter.Simulation: optimizer/sim_adapter.py. Adapter.Built: the constructors of both
--   adapters, and their loops over the predictor and the optimizer that they build.
-- - Results: experiments/utils/parser.py, the latencies that the parser takes from the recorded
--   responses, their summaries, the seconds, and the points where a configuration changes.
--   LoadTester: load_tester/barazmoon/main.py, the requests of the gRPC tester and what is
--   recorded of them, and experiments/utils/workload.py with
--   load_tester/barazmoon/twitter/loader.py, the load of each second. Serving:
--   pipelines/router/models.py, the way of a request through the models of a pipeline. The load
--   tester sends its requests to the router, whose times end in the recorded responses that the
--   parser reads.
-- - Experiments: experiments/utils/simulation_operations.py, the pipelines that the simulations
--   start from, made of the profiling results (Simulated), or trimmed and filled up to a size
--   (Fake), and experiments/runner/simulation_runner.py, which runs a simulation from its
--   configuration (Runner).
-- - Samples and the modules named Tests: sample data, runs, and the instances of the results.
--
-- How values are modelled. Ints that are never negative are natural numbers. Doubles are a type F
-- with the operations of Runtime, and so is the order in which a set lists its members; a result
-- that needs an order of the doubles asks for IsOrdered. str, int and round are the fields of
-- Conversions. The fits of scikit-learn, the random sample and the maximum over a column of
-- pandas, the API of Kubernetes, the solver of the integer program, the tables of the profiling
-- results, the statistics of numpy, the replies of the models, the clock of the router, the LSTM
-- network and the ARIMA model are parameters. The loops of the adapters take the predictor and the
-- optimizer as arguments, and Adapter.Built passes them in. What the outside answers to a pass of
-- the loop is an argument of the pass. A predicted load is a natural number: a negative one, which
-- only the LSTM network and the ARIMA model could give, is outside the model.
--
-- Fuel. The two while loops of base_allocations run on settle_fuel, three more than the number of
-- allocations; a loop moves its indicator up in each round and stops behind the last allocation.
-- The logarithm of regression_model runs on its argument, which it halves. All other loops are
-- recursion on a list or on a number of turns.
--
-- Not modelled: the branch of gurobi_optmizer for fitted latencies, which is never reached, the
-- log, the waits, the metadata of the reports beyond the load and the service level, the
-- experiment runners but that of the simulation, the files and tables that the parser of the
-- results reads and writes, the REST and process load testers, and the nodes and queues of the
-- pipelines, which are calls of libraries.
pub mod Prelude
pub mod Models
pub mod Optimizer
pub mod Adapter
pub mod Results
pub mod LoadTester
pub mod Serving
pub mod Experiments
pub mod Samples
