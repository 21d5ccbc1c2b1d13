-- ===== src/Heal.antt =====
-- domain/heal: the deterministic relocation of an element.
pub mod Lcs
