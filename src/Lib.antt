-- ===== src/Lib.antt =====
-- Verification of the parts of this UEFI firmware (HtcLeoPkg) that carry its own logic: the keypad,
-- the interrupt controller with its library, the pins, the timers, the clocks, the SD card, the two
-- serial ports, the modem's commands, the reset, the memory map, the clock, the frame buffer's set-up, and
-- the Tetris application; and of the tool that packs the boot image.
--
-- How the parts interact: the timer of the keypad driver (Drivers/KeypadDxe) polls the keypad device
-- (Library/KeypadDeviceImplLib), which reads its pins and hands each pin to the state machine of a key
-- (Include/Library/KeypadDeviceHelperLib.h). The keys that the state machine reports go to the driver's
-- two circular queues, of which one is read by the applications, Tetris among them, and the other by the
-- notification handler. Library/MsmPcomLib sends commands to the modem, and the clock driver
-- (GPLDrivers/ClockDxe) and the modem's clients (Library/MsmPcomClientLib) are clients of it, as is
-- Library/HtcLeoPlatformResetLib. Drivers/InterruptDxe keeps one handler for each source;
-- Library/InterruptsLib puts its own handlers with arguments behind it, which the pins
-- (Library/MsmTargetGpioLib) register; Drivers/TimerDxe registers its handler directly. The SD card driver
-- (GPLDrivers/SdCardDxe) waits with the delays of Library/GPTTimerLib
-- and sets its clock and pins through the modem's clients. The serial ports print the
-- firmware's text and stand on their own. The game keeps its fields and the characters on the console
-- separately, and redraws only what a move changes. Library/VirtualRealTimeClockLib reads the counter of
-- Library/GPTTimerLib.
--
-- Files (paths of the source below HtcLeoPkg/):
--   Common, Common/Tests, Common/Lists, Common/Int: names and lemmas that the rest shares;
--     Common/Words the bits of machine words, Common/Io device registers and a state monad.
--   Keypad/Key: EFI_KEY_DATA, status codes and key constants.
--   Keypad/Queue: EFI_KEY_QUEUE, PopEfikeyBufHead, PushEfikeyBufTail (Drivers/KeypadDxe/KeypadTextIn.c).
--     Queue/Fifo is the list that it is compared with, Queue/Refine the comparison.
--   Keypad/KeyStatus: KeySetState, KeyGetState, LibKeyUpdateKeyStatus
--     (Include/Library/KeypadDeviceHelperLib.h); KeyStatus/Press and KeyStatus/Repeat the proofs.
--   Keypad/Device: Library/KeypadDeviceImplLib/KeypadDeviceImplLib.c, the keys;
--     Device/Poll the pins, the light and GetKeys, Poll/Led, Poll/Idle and Poll/Matrix the proofs,
--     the last on the lines and inputs of the phone's keys.
--   Keypad/Console: KEYPAD_CONSOLE_IN_DEV, KeypadTimerHandler, InitKeypad, KeypadEfiReset,
--     KeypadReadKeyStrokeWorker and KeypadReturnApiPushEfikeyBufTail (Drivers/KeypadDxe);
--     Console/Flow follows a key from the device to a reader.
--   Keypad/TextIn: the other functions of Drivers/KeypadDxe/KeypadTextIn.c; TextIn/Read, TextIn/Notify
--     and TextIn/Register the proofs.
--   Interrupt: Drivers/InterruptDxe/InterruptDxe.c; Interrupt/Table on the table of handlers,
--     Interrupt/Enable on the enable bits.
--   Serial/Glyph, Serial/FbCon: Library/FrameBufferSerialPortLib/FrameBufferSerialPortLib.c, drawing and
--     console; Glyph/Reach and FbCon/Frame the proofs.
--   Serial/Memory: Library/InMemorySerialPortLib/InMemorySerialPortLib.c; Memory/Ring the proofs.
--   Tetris/Piece, Tetris/Board, Tetris/Lines, Tetris/Moves, Tetris/Core: Application/TetrisApp/Piece.c,
--     Board.c, Core.c and the loop of main.c. The modules below Lines, Moves and Core are the proofs.
--   Tetris/Screen: what the moves of Board.c print, with CommonHeader.c; Screen/Text the frames, headings
--     and numbers, Screen/Window the messages of Core.c and the game with its display. Screen/Fields, Rows,
--     Follow, Moves, Settle and Play are the proofs on each move, Screen/Beside on what is printed beside
--     the fields, and Screen/Step and Screen/Game put them together.
--   Pcom: Library/MsmPcomLib/pcom.c; Pcom/Call the proofs. Pcom/Clients:
--     Library/MsmPcomClientLib/pcom_clients.c and MSM_GPIO_CFG of Include/Chipset/gpio.h;
--     Clients/Sdcard the proofs.
--   Clock: GPLDrivers/ClockDxe/ClockDxe.c; Clock/Speed on the choice of speeds, Clock/Serve on requests
--     and the account of them that is the driver's specification.
--   Gpio: Library/MsmTargetGpioLib/qcom_qsd8250_gpio.c, the banks and the operations on a pin; Gpio/Bank
--     and Gpio/Pin the proofs; Gpio/Irq the pins' interrupts and set-up, Irq/Setup its proof;
--     Gpio/Table the table of configurations.
--   InterruptsLib: Library/InterruptsLib/Interrupts.c; InterruptsLib/Dispatch follows an interrupt through
--     the driver and the library.
--   GptTimer: Library/GPTTimerLib/GPTTimerLib.c; GptTimer/Delay the proofs.
--   Timer: Drivers/TimerDxe/Timer.c; Timer/Period the proofs.
--   SdCard: GPLDrivers/SdCardDxe/SdCardDxe.c, state and commands; SdCard/Setup identification, registers
--     and the CSD register, with the proof in Setup/Csd; SdCard/Block reads, with the proofs in Block/Read;
--     SdCard/Start the controller and the driver, with the proof in Start/Mbr.
--   Reset: Library/HtcLeoPlatformResetLib/HtcLeoPlatformResetLib.c; Reset/Restart the proof.
--   Memory: Library/MemoryInitPeiLib/MemoryInitPeiLib.c; Memory/Descriptors and Memory/Map the table of
--     Include/Configuration/DeviceMemoryMap.h; Memory/Peim and Memory/Regions the proofs.
--   VirtualClock: Library/VirtualRealTimeClockLib/VirtualRealTimeClockLib.c; VirtualClock/Elapsed the proofs.
--   Video: PainScreen of PrePi/PrePi.c, and Drivers/SimpleFbDxe/SimpleFbDxe.c; Video/Cleared the proofs.
--   NbImage: the tool ImageResources/Tools/nbgen.c, beside HtcLeoPkg; NbImage/Chs and NbImage/Layout the
--     proofs.
--   Tests: runs on small inputs.
--
-- The state of a component is a record, each C function is a function from the old state to the new one
-- with its results beside it, and calls are made in the order of the source. Function names are the C
-- names in lower case with underscores.
--
-- Bounds and fuel. Integers are natural numbers; where the source can wrap (the queue's indices, the
-- elapsed time, the random numbers, the unsigned comparison at the end of a page) the model takes the
-- remainder. The coordinates of the game are integers. Loops over lists, rows and pixels are structural.
-- Fuel is used where the source's loop does not count: the removal of lines has 41 rounds, the drop of a
-- piece 24, the queues of at most 255 keys 256 turns, and the character that turns a page two passes.
-- Running out of fuel gives `none`. KeypadReadKeyStroke repeats its timer handler, so that its rounds
-- depend on the device and no number of them is enough in general. The waiting loops of the modem's
-- commands, of the delays and of the SD card take their fuel as an argument, and give `none`, `stuck`
-- or `waits` without enough of it. The image tool's loop over a file has one round more than the file has
-- bytes, which is enough as each round but the last reads 2048. Its `int` numbers of sectors do not
-- overflow for files below 4 TB.
--
-- Parameters: the pins of the board as the keypad sees them, the device registers (the interrupt
-- controller's, the pins', the timers', the SD controller's) and the effect of interrupt handlers, the
-- modem and its shared memory, the font's table, the conversion of the performance counter, the texts of
-- the game and the digits of a number, whether the C compiler of the image tool takes char as signed,
-- FrameBufferBlt, the size of a structure of EDK II, and what AllocateZeroPool and AllocatePool return. CreateEvent and SetTimer are taken
-- to succeed. RaiseTPL and RestoreTPL make a function atomic; the expiry of the light's timer and its
-- notification, which has a lower level than the polls, are separate steps. KeyNotifyProcessHandler,
-- which raises the level only for each key that it takes, is one step. Reading a register of the
-- interrupt controller changes nothing.
--
-- Not modelled: protocol installation, memory allocation, caches, assembly, the size and mode of the
-- console and the background colour of two messages of the game; the arguments, messages and file errors
-- of the image tool; the drivers and libraries that are copies of EDK II's or follow them (ConSplitterDxe,
-- GraphicsConsoleDxe, FrameBufferBltLib, SmbiosPlatformDxe, PlatformBootManagerLib, the exception handler);
-- the heartbeat driver, whose callback sets a pin, waits and sets it back.
pub mod Common
pub mod Keypad
pub mod Tetris
pub mod Interrupt
pub mod Serial
pub mod Pcom
pub mod Clock
pub mod Gpio
pub mod InterruptsLib
pub mod GptTimer
pub mod Timer
pub mod SdCard
pub mod Reset
pub mod Memory
pub mod VirtualClock
pub mod Video
pub mod NbImage
pub mod Tests
