-- ===== src/Anchors.antt =====
-- tools/compare_anchor_contract.py and the comparison of anchors.
pub mod Compare
