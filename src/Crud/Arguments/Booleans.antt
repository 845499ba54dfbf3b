-- ===== src/Crud/Arguments/Booleans.antt =====
-- What is sent of a `bool` (C/src/dcrud/Arguments.c, C/inc/util/types.h) on a big-endian host.
