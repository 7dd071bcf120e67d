-- ===== src/Ramdisk/Calls/Creates.antt =====
-- module/module_interface.h: `create` where it succeeds, and what `isExist` finds afterwards.
