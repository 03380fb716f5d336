-- ===== src/Qt.antt =====
-- What the code takes from Qt. A QString is the list of its code units and a QByteArray the list
-- of its bytes; `Text` has the operations of these sequences that only take them apart and join
-- them. Every other operation of Qt is a field of the interface `Library`, with the documented laws
-- that the proofs rely on, and each component takes the library as a parameter.
mod Text
mod Interface
mod Laws
unfoldable pub use Text.*
pub use Interface.*
pub use Laws.*
