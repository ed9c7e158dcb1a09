-- ===== src/Containers.antt =====
-- The containers of the C++ standard library that the client uses: `std::map` and `std::set`.
pub mod Map
