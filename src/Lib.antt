-- ===== src/Lib.antt =====
-- A verification library for the algorithms and data structures of this repository, a collection
-- of C++ studies. The parts are independent programs; each has a module of its own here.
--
-- - Common: names passed on from the libraries, lists with native indices, fallible steps.
-- - Zigzag: edu/train/zigzag.hpp. Ref, Base, Forge, Best and Best1 hold the variants (`convert_*`,
--   one function for each loop), Spec the zigzag that they all compute, and the other modules the
--   proofs. A string is a list; loops with a count recur on the rounds left, so no fuel is needed.
--   Reservations are not modelled: they choose where characters lie, not which. convert_arena is left
--   out: it allocates from an arena of another repository, which may be too small.
-- - BoundedQueue: the concurrent queues of projects/high_perf/parallel_data_structures.
--   `concurent_bounded_try_queue` of concurent_queues.h with its private `stop` and `wait_and_pop`,
--   as calls under the mutex, with the threads that sleep on its condition variable; Traces follows
--   the elements, Stopping and Sleeping the threads; Messages is `message_queue` of safe_queue_cc11.h.
-- - RwSemaphore: projects/high_perf/rw_semaphore.h as interleavings of threads over its word.
-- - Knapsack: edu/courses/stanford2/cc. Knapsack and Optimal hold the recursions of
--   w3_lession_code.cc (`knapSackExp`, `knapSack`), Memo the recursion with a hash table of
--   w3_dyn_pro.cc, Nested and NestedExp the one with a table of tables, Table the tables of both
--   files, Tasks the parallel tasks of w3_dyn_pro_parallel.cc, Steps what one step keeps, Schedules
--   what every schedule of steps reaches. Values and weights are naturals that fit an int.
-- - Lru: projects/high_perf/lru_benchmark.cc, `v1::Lru`. Order is what such a cache does to the
--   order of use, Coherent the invariant between list and map, Steps one call against Order, Refine
--   sequences of calls.
-- - ForwardList: edu/train/crack_code_lists.cc, `own_forward_list` over a heap of nodes. Chain says
--   which nodes a list owns, Owning is push_back, Destroy the destructor, Copy the copy constructor and
--   the assignment, Nth get_nth_to_last and printing. Loops along `next` run on fuel, and as much as
--   the list has nodes is enough.
-- - BitMask: projects/high_perf/bit_masking.cc, `DataLeafNode`. Offsets is toOffset and fromOffset,
--   Active what setActive stores and traverse finds. Common.Bits has the laws of bits in a byte.
-- - Vector: edu/courses/adv_cpp_study/top.cpp, `Vector` (Growth, Resize) and `Vector<bool>` (Bits).
-- - Documents: edu/talks/sean_parent/inh_evil_reduce_c11_apps.cc, `ps_sample`. Undo is the history,
--   Drawing counts the lines of a drawing. Shared is `ps_sample_shared`, pointers to immutable models;
--   three units of fuel for each line are enough.
-- - OwnExt: common/std_own_ext.h, `at`, `contain`, `cache` and `compact`.
-- - ShortestPath: edu/courses/stanford1/cc/shortest_path.cc, Dijkstra's algorithm of `main`, with the
--   types of edu/courses/my-cs/details/graph_details.h. Walks says what a distance is, Minimum,
--   Relaxing and Visiting follow the parts of a round, Rounds and Search hold the invariant. A sum
--   that overflows an int is a failure, and the theorems exclude it by a bound on the weights. One
--   unit of fuel more than there are nodes is enough.
-- - NodeLine: edu/courses/my-cs/details/io_details.cc, `parse_node_data`. Reading shows that it ends;
--   one unit of fuel for each entry and one more are enough. RoundTrip reads back what a line writes,
--   Broken is the exception of a line that ends in half an entry.
-- - GraphInput: edu/courses/my-cs/details/graph_details.cc, `build_graph` over the lines that NodeLine
--   parses. Places follows the asserts and the writes, Parallel compares process_parallel with
--   process_serial, Built starts from the text of the lines. `tbb::parallel_for` is the order in which
--   it visits the indices; CoversRange is what TBB promises of it.
-- - PathFile: `main` of shortest_path.cc over the text of its file, by NodeLine, GraphInput and
--   ShortestPath one behind the other. Rows compares the graphs, Distances goes through.
-- - Connectivity: edu/courses/my-cs/connectivity_problem_test.cc, `quick_find` and `quick_union`. Joined
--   is what links join and which links to keep, Labels what a union does to labels, Find and Union the
--   two programs, Trees the ids of quick_union; its walks to a root take one unit of fuel more than
--   there are links.
-- - IndependentSet: edu/courses/stanford2/cc/w3_lession_code.cc, `TEST(W3, Wis)`. Best says what a
--   heaviest set is, Walk follows the loop that fills the table and the walk back.
-- - ItemFiles: edu/courses/my-cs/details/io_details.cc, `get_dyn_items` and `extract_records`, with the
--   extractions of NodeLine. ReadBack reads what a file of items holds.
-- - Growing: edu/courses/my-cs/no_certain_place/dyn_pro_test.cc, `TEST(Dyn, MaxGrow)`. Longest says what
--   the lengths are and follows the two loops.
--
-- Not modelled: third-party copies (3rdparty, edu/books/cuda_book), benchmarks, input and output,
-- and the snippets that only show a feature of the language.
pub mod Common
pub mod Zigzag
pub mod RwSemaphore
pub mod BoundedQueue
pub mod Knapsack
pub mod Lru
pub mod NodeLine
pub mod PathFile
pub mod Growing
pub mod ItemFiles
pub mod IndependentSet
pub mod Connectivity
pub mod GraphInput
pub mod ShortestPath
pub mod OwnExt
pub mod Documents
pub mod Vector
pub mod BitMask
pub mod ForwardList
