-- ===== src/Context/Contents.antt =====
-- What is pushed to a queue of Base/Context.cpp and taken from it.
