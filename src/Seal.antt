-- ===== src/Seal.antt =====
-- Package seal: the framing that carries a record's identity beside its ciphertext.
pub mod Uvarint
pub mod Frame
