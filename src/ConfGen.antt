-- ===== src/ConfGen.antt =====
-- The configuration generator: tools/bbbconfgen/bbbconfgen.go. Patterns has the regular expressions
-- and the functions of the package strings that it calls, Template the loop over the lines, Output
-- the files and the connection. Redis is a parameter: `get` is
-- `redis.String(redisConn.Do("GET", key))`, which is empty for a missing key and after an error.
pub mod Patterns
pub mod Template
pub mod Output
pub mod Parts
pub mod Replace
pub mod Find
pub mod Render
pub mod Written
pub mod Conditional
