-- ===== src/Reserver/Buys.antt =====
-- How many reservations a change leads to.
