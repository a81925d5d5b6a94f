-- ===== src/Domain.antt =====
-- domain/value_objects/enums.py, domain/value_objects/ids.py and domain/entities.
-- A UUID is the 128-bit number that it stands for and a datetime the number of microseconds since
-- `datetime.min`: the program compares them, and the order of both is that of the numbers.
-- Subject ids are only compared, so they are naturals.
mod Values
mod Entities
unfoldable pub use Values.*
pub use Entities.*
