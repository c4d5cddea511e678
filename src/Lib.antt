-- ===== src/Lib.antt =====
-- Kurtosis: a runner of test suites, whose tests each drive a network of Docker containers. This
-- library models the program's own logic and proves what it does.
--
-- The parts and how they interact. The initializer takes the tests of a suite, gives each a subnet
-- of its own (initializer/test_suite_runner.go), and lets a pool of workers run them
-- (initializer/parallelism/test_executor_parallelizer.go). Each worker runs a test in a controller
-- container (initializer/parallelism/test_executor.go), through the Docker manager
-- (commons/docker/docker_manager.go), and reports it to the output manager
-- (initializer/parallelism/parallel_test_output_manager.go), which meanwhile diverts the
-- system-wide logger to a capturing writer (initializer/parallelism/capturing_log_writer.go), and
-- whose verdict is the suite's. In the container the controller (controller/test_controller.go) lets
-- the test's loader build a network of services (commons/networks), and runs the test on it; each
-- service is a container with an address that a tracker hands out
-- (commons/networks/public_ip_tracker.go), started by a service initializer and polled by an
-- availability checker (commons/services).
--
-- Which file models what:
--   * Base: Boolean tests, lists, texts, maps, and results with errors. A Go map is an association
--     list, whose order stands for the order in which `range` visits it.
--   * Net: what the code uses of Go's `net` and `encoding/binary` (addresses, masks, CIDR texts),
--     and the arithmetic of it that the proofs share.
--   * Networks.IpTracker: commons/networks/public_ip_tracker.go. `get_free_ip_addr` is
--     GetFreeIpAddr; it returns the tracker that it leaves, since the map is shared.
--   * Networks.ServiceNetwork: commons/networks/service_network.go. An operation is a function to
--     its result, the network and the world it leaves; `add_service`, `get_service`,
--     `remove_service` and `remove_all` are the methods.
--   * Networks.Builder: commons/networks/service_network_builder.go, with maps as values, and in
--     Networks.Builder.Store with maps as objects that a builder and a network refer to.
--   * Actions: functions that act on a world and return `(value, error)`: their chains, and `Ends`,
--     what holds at the end of one by its result.
--   * Services: commons/services. `Host` and the two cores are what is not in the repository: the
--     Docker engine, the file system, random identifiers and the developer's code, which act on a
--     world of any type. `create_service`, `wait_for_startup`, `new_service_availability_checker`.
--   * Docker: commons/docker/docker_manager.go. `DockerClient` is the Docker client, whose calls act
--     on a world of any type; Docker.Manager has the methods, Docker.Config what a container is
--     configured with. Docker.View says what Docker documents of the calls (`DockerLaws`), on what
--     can be seen of a world. Docker.Drivers makes of the manager the `Engine` of the test executor
--     and the `Host` of the services.
--   * Controller: controller/test_controller.go and commons/testsuite. The developer's code (the
--     hooks of commons/networks/network_loader.go, and Run of commons/testsuite/test.go) is a tree
--     of calls, `Calls`, whose branches are the answers; `run_calls` makes the calls on the network.
--     `run_test` is RunTest: it ends before there is a network, or after the deferred RemoveAll, or
--     with the death of the process; `run_test_result` is runTest, by how the test ends (`Ending`).
--     Controller.Late has the calls that a test makes around its timeout and after it, an AddService
--     in three steps, between which RemoveAll starts and visits the services.
--   * Initializer.TestParams: buildTestParams of initializer/test_suite_runner.go and
--     initializer/parallelism/parallel_test_params.go.
--   * Initializer.SuiteRunner: RunTests of initializer/test_suite_runner.go: the choice of the tests,
--     their parameters (`prepare`), and `RunTests`, which relates a call to its results.
--   * Initializer.LogWriter, Initializer.OutputLines, Initializer.OutputManager:
--     capturing_log_writer.go and parallel_test_output_manager.go under initializer/parallelism, the
--     lines that the latter prints in a module of their own. The state is the manager, the standard logger, and the lines written
--     so far, each with the writer it went to; `none` is the panic on a nil logger. A method is one
--     function; Initializer.OutputManager.Locking has calls of logTestOutput from many goroutines at
--     once, a lookup, a store or a line at a time, under the mutex.
--   * Initializer.Parallelizer: initializer/parallelism/test_executor_parallelizer.go. A worker's
--     turn is one step of a relation on the channel, the workers and the reports, in any order;
--     `run_in_parallel_and_print_results` is the run around the reports of such steps. A turn's
--     work is `run_turn` of Initializer.Parallelizer.Turns, and a worker that runs by itself is
--     `run_test_worker_goroutine`, with the temporary files and what is deferred. The exit signals,
--     their listener and the context are the steps of Initializer.Parallelizer.Signals.
--   * Initializer.EnvVars, Initializer.TestExecutor: initializer/parallelism/test_executor.go.
--     `run_test_goroutine` is runTestGoroutine, with the removal of the network that it defers;
--     `run_test` is runTest, whose selects are the cases of `Race`; Initializer.TestExecutor.Timeouts
--     says which cases the clock allows.
--
-- Bounds and fuel. Addresses are native numbers with the wrap-around of uint32 written out. The
-- loop of GetFreeIpAddr has fuel for 2 ^ 32 rounds: after them its counter and its map are those it
-- started with, so that more rounds give no result either. The fuel of the buffers of a stack trace
-- and of the polls of a service is an argument of the theorems, which say how much is enough. The
-- conversion of a float64 to uint32 is fixed by the language only for values that fit, so it is a
-- parameter with the hypothesis `Converts`. The execution timeout of a test is the number of calls
-- that the test makes before it; what a test that has hit it still does while RemoveAll runs is in
-- Controller.Late alone. Other loops are structural.
--
-- Not modelled: interfaces without code; when the cancellation of a context ends the calls made
-- with it (a test may end with any outcome at any time); the test executor's goroutine after it has
-- been given up at a timeout; calls of the developer's code on one network from several goroutines at
-- once, other than those after the timeout of a test, and panics of its hooks; data races; what
-- happens in Docker between the calls, and which address Docker gives a container for the
-- EndpointSettings that the code sends; IPv6 networks, which `parse_cidr` refuses; log lines other
-- than those of the output manager.
pub mod Base
pub mod Net
pub mod Actions
pub mod Services
pub mod Networks
pub mod Initializer
pub mod Docker
pub mod Controller
