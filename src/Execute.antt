-- ===== src/Execute.antt =====
-- src/vm/vm.cpp: `execute` and `run`, with what they use of include/vm.hpp, include/value.hpp,
-- include/list.hpp and include/map.hpp.
-- State has the machine and the runs on it, Values the tests of values, and Operators, Variables,
-- Classes and Indices the cases of the switch, which stands in Dispatch; Program has `run`.
pub mod State
pub mod Keeps
pub mod Values
pub mod SameBytes
pub mod Operators
pub mod Variables
pub mod Classes
pub mod Indices
pub mod Dispatch
pub mod Program
pub mod Safe
pub mod Bounds
pub mod Runs
pub mod Returned
pub mod Inherited
pub mod Indexed
mod Tests
